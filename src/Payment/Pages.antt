-- ===== src/Payment/Pages.antt =====
-- The pages of `ListPaymentsByCustomer`, asked for one after the other.
use event_driven_ecommerce.Base.{
  ℕ, zero, suc, ◌+◌, ◌*◌, ◌^◌, ◌<◌, ◌≤◌, String, ◌≡◌, refl, ap, ◌∙◌, sym, subst, arith, false, ℤ,
  pos, List, [], ◌++◌, length, none, ok, some, Result, Failure, World, page_bounds, take, drop,
  take_none, take-add, drop_past, take_past, mul_bound, page_bounds_within, page_bounds_past,
  Bool-cases, inl, inr, leb, is_blank, trim_space, running, outside, pure, ◌>>=◌, on_some,
}
use event_driven_ecommerce.Payment.Domain.{Payment, PaymentError, PaymentDb, Call}
use event_driven_ecommerce.Payment.Queries
use event_driven_ecommerce.Payment.Queries.{
  payments_of, count_payments_by_customer, insert_listed, sort_listed, listed, listed_before,
}
use event_driven_ecommerce.Payment.Rows.{map_db_payments}
use event_driven_ecommerce.Payment.Repository
use event_driven_ecommerce.Payment.Repository.{list_page}
use event_driven_ecommerce.Payment.Service
use event_driven_ecommerce.Payment.ListedRows.{length-sort, length-read, take-read, drop-read}

abbrev Listed : Type 0
Listed = Result (Failure PaymentError) (List Payment × ℕ) × World PaymentDb

-- The page and the total are given, with the tables as they were and no call lost.
record Given (page : List Payment) (total : ℕ) (w : World PaymentDb) (x : Listed) : Type 0 where
  answer : x.0 ≡ ok (page, total)
  tables : x.1.db ≡ w.db
  faults : x.1.fault ≡ w.fault

module _ (customer : String) (n : ℕ) (ps : List Payment) (p : 0 < n) (s : n < 2 ^ 31)
    (t : length ps < 2 ^ 31) where
  past_page :
      (k : ℕ) (w : World PaymentDb)
      → page_bounds (pos (suc k)) (pos n) (length ps) ≡ none
      → Given [] (length ps) w (list_page customer (pos (suc k)) (pos n) (length ps) w)
  unfolding list_page on_some running
  past_page k w e = record {
    answer = ground (arith, e);
    tables = ground (arith, e);
    faults = ground (arith, e);
  }

  there_page :
      (k : ℕ) (w : World PaymentDb)
      → ((m : ℕ) → w.fault m ≡ none)
      → map_db_payments (listed customer w.db) ≡ ok ps
      → 0 < length ps
      → page_bounds (pos (suc k)) (pos n) (length ps) ≡ some (n, k * n)
      → Given
          (take n (drop (k * n) ps))
          (length ps)
          w
          (list_page customer (pos (suc k)) (pos n) (length ps) w)
  unfolding list_page on_some running outside Queries.list_payments_by_customer
  there_page k w up read some_rows e =
      let rows = take-read n _ _ (drop-read (k * n) _ _ read) in
      record {
        answer = ground (arith, e, up w.tick, rows);
        tables = ground (arith, e, up w.tick, rows);
        faults = ground (arith, e, up w.tick, rows);
      }

  page_answered :
      (k : ℕ) (w : World PaymentDb)
      → k < 2 ^ 31
      → ((m : ℕ) → w.fault m ≡ none)
      → map_db_payments (listed customer w.db) ≡ ok ps
      → Given
          (take n (drop (k * n) ps))
          (length ps)
          w
          (list_page customer (pos (suc k)) (pos n) (length ps) w)
  page_answered k w h up read = elim (Bool-cases (leb (length ps) (k * n))) [
    | inl past ↦
        let over : length ps ≤ k * n = ground (arith, past) in
        subst
          (λ page.
            Given page (length ps) w (list_page customer (pos (suc k)) (pos n) (length ps) w))
          (sym (take_none n (drop (k * n) ps) (drop_past (k * n) ps over)))
          (past_page k w (page_bounds_past k n (length ps) (mul_bound k n h s) p over))
    | inr within ↦
        let under : k * n < length ps = ground (arith, within) in
        there_page k w up read (omega (arith, under))
          (page_bounds_within k n (length ps) (mul_bound k n h s) p s t under)
  ]

total-eq :
    (customer : String) (d : PaymentDb) (ps : List Payment)
    → map_db_payments (listed customer d) ≡ ok ps
    → length (payments_of customer d.payments) ≡ length ps
unfolding listed
total-eq customer d ps e =
    sym (length-sort (listed_before d.collates) (payments_of customer d.payments))
    ∙ sym (length-read _ ps e)

-- A valid customer whose payments are counted.
counted :
    (customer : String) (page page_size : ℤ) (w : World PaymentDb)
    → is_blank customer ≡ false
    → w.fault w.tick ≡ none
    → Service.list_payments_by_customer customer page page_size w
      ≡ list_page
          (trim_space customer)
          page
          page_size
          (length (payments_of (trim_space customer) w.db.payments))
          (record w { tick = suc w.tick })
unfolding Service.list_payments_by_customer Repository.list_payments_by_customer
    count_payments_by_customer running outside
counted customer page page_size w named up = ground (arith, named, up)

-- The payments of the pages 1 to `k` of `n`, which a client asks for one after the other.
unfoldable pub first_pages : ℕ → ℕ → String → Call (List Payment)
first_pages zero n customer = pure []
first_pages (suc k) n customer = do
  earlier ← first_pages k n customer
  page ← Service.list_payments_by_customer customer (pos (suc k)) (pos n)
  pure (earlier ++ page.0)

module _ (customer : String) (n : ℕ) (d : PaymentDb) (ps : List Payment)
    (named : is_blank customer ≡ false)
    (read : map_db_payments (listed (trim_space customer) d) ≡ ok ps) (p : 0 < n) (s : n < 2 ^ 31)
    (t : length ps < 2 ^ 31) where
  answered :
      (k : ℕ) (w : World PaymentDb)
      → k < 2 ^ 31
      → w.db ≡ d
      → ((m : ℕ) → w.fault m ≡ none)
      → Given
          (take n (drop (k * n) ps))
          (length ps)
          w
          (Service.list_payments_by_customer customer (pos (suc k)) (pos n) w)
  answered k w h at up =
      let here : map_db_payments (listed (trim_space customer) w.db) ≡ ok ps =
        ap (λ x. map_db_payments (listed (trim_space customer) x)) at ∙ read in
      let g =
        page_answered (trim_space customer) n ps p s t k (record w { tick = suc w.tick }) h up
          here in
      let same =
        counted customer (pos (suc k)) (pos n) w named (up w.tick)
        ∙ ap
            (λ total.
              list_page (trim_space customer) (pos (suc k)) (pos n) total
                (record w { tick = suc w.tick }))
            (total-eq (trim_space customer) w.db ps here) in
      record {
        answer = ap (λ x. x.0) same ∙ g.answer;
        tables = ap (λ x. x.1.db) same ∙ g.tables;
        faults = ap (λ x. x.1.fault) same ∙ g.faults;
      }

  record Collected (k : ℕ) (w : World PaymentDb) : Type 0 where
    answer : (first_pages k n customer w).0 ≡ ok (take (k * n) ps)
    tables : (first_pages k n customer w).1.db ≡ d
    faults : (m : ℕ) → (first_pages k n customer w).1.fault m ≡ none

  collected :
      (k : ℕ) (w : World PaymentDb)
      → k < 2 ^ 31
      → w.db ≡ d
      → ((m : ℕ) → w.fault m ≡ none)
      → Collected k w
  unfolding first_pages ◌>>=◌ pure take
  collected zero w h at up = record {
    answer = let e : 0 ≡ 0 * n = omega arith in ap (λ m. ok (take m ps)) e;
    tables = at;
    faults = up;
  }
  collected (suc k) w h at up =
      let c = collected k w (omega (arith, h)) at up in
      let g = answered k (first_pages k n customer w).1 (omega (arith, h)) c.tables c.faults in
      let more : take (k * n) ps ++ take n (drop (k * n) ps) ≡ take (suc k * n) ps =
        (let e : k * n + n ≡ suc k * n = omega arith in
          sym (take-add (k * n) n ps) ∙ ap (λ m. take m ps) e) in
      record {
        answer = ground (arith, c.answer, g.answer, more);
        tables = ground (arith, c.answer, g.answer, g.tables, c.tables);
        faults = λ m. ground (arith, c.answer, g.answer, g.faults, c.faults m);
      }

-- Where no call fails and every row of a customer can be read, fewer than 2 ^ 31 of them, the pages 1
-- to `k` of `n` payments, for page numbers and sizes that an int32 holds, asked of the service one
-- after the other, are together all the payments of the customer in the order of the list, once
-- `k * n` reaches their number: none is missing, repeated or out of order.
pub first_pages_cover :
    (customer : String) (k n : ℕ) (ps : List Payment) (w : World PaymentDb)
    → ((m : ℕ) → w.fault m ≡ none)
    → is_blank customer ≡ false
    → map_db_payments (listed (trim_space customer) w.db) ≡ ok ps
    → k < 2 ^ 31
    → 0 < n
    → n < 2 ^ 31
    → length ps < 2 ^ 31
    → length ps ≤ k * n
    → (first_pages k n customer w).0 ≡ ok ps
first_pages_cover customer k n ps w up named read h p s t c =
    (collected customer n w.db ps named read p s t k w h refl up).answer
    ∙ ap ok (take_past (k * n) ps c)
