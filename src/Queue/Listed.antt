-- ===== src/Queue/Listed.antt =====
-- server/src/services/queue.service.ts: what the queue lists.
use cargo_execution_assistan.Prelude.{
  ℕ, zero, suc, ◌≡◌, refl, sym, ap, ◌∙◌, ◌<◌, ◌↔◌, inl, inr, Bool, true, false, ◌||◌, List, [], ◌∷◌,
  map, ok, length, length-map, take, all, any, All, ltb, ltb→lt, lt→ltb, arith, Bool-cases,
  if◌then◌else◌, subst, Paired, map-Paired,
}
use cargo_execution_assistan.Text.{Text, text_eq}
use cargo_execution_assistan.Text.Laws.{text_eq_refl}
use cargo_execution_assistan.Validation.Rule.{Finding}
use cargo_execution_assistan.Database.{Database}
use cargo_execution_assistan.Receipt.Write.{is_safe_position}
use cargo_execution_assistan.Queue.{
  QueueRow, QueueResponse, open_rows, in_receipt_order, list_open_exceptions, bucket,
  load_findings_by_validation_result_ids, row_summary, page_of, queue_response, list_queue,
}
use cargo_execution_assistan.Queue.Order.{
  IsAscending, in_receipt_order-IsAscending, in_receipt_order-Permᴰ, all-in_receipt_order, all-take,
}
use cargo_execution_assistan.Queue.Shown.{Open, open_rows-Open, IsShown, row_summary-IsShown}
use cargo_execution_assistan.Queue.Grouped.{findings_of, load_findings-findings_of}
use mathlib.Core.List.{Permᴰ}

module _ {A : Type 0} where
  -- One row more than the page says whether there are more.
  more_iff : (n : ℕ) (xs : List A) → ltb n (length (take (suc n) xs)) ≡ ltb n (length xs)
  more_iff zero [] = refl
  more_iff zero (x ∷ xs) = ground arith
  more_iff (suc n) [] = refl
  more_iff (suc n) (x ∷ xs) = ground (arith, more_iff n xs)

  take-take : (n : ℕ) (xs : List A) → take n (take (suc n) xs) ≡ take n xs
  take-take zero xs = refl
  take-take (suc n) [] = refl
  take-take (suc n) (x ∷ xs) = ap (λ l. x ∷ l) (take-take n xs)

  take-all :
      (n : ℕ) (xs : List A) → ltb n (length (take (suc n) xs)) ≡ false → take (suc n) xs ≡ take n xs
  take-all zero [] h = refl
  take-all zero (x ∷ xs) h = cc
  take-all (suc n) [] h = refl
  take-all (suc n) (x ∷ xs) h = ap (λ l. x ∷ l) (take-all n xs (ground (arith, h)))

  page_lem :
      (n : ℕ) (xs : List A)
      → (if ltb n (length (take (suc n) xs)) then take n (take (suc n) xs) else take (suc n) xs)
        ≡ take n xs
  page_lem n xs = elim (Bool-cases (ltb n (length (take (suc n) xs)))) [
    | inl more ↦ rw more (take-take n xs)
    | inr no_more ↦ rw no_more (take-all n xs no_more)
  ]

own-asked :
    (ids : List Text) (rs : List QueueRow)
    → ((t : Text)
        → any (text_eq t) (map (λ r. r.validation_result_id) rs) ≡ true
        → any (text_eq t) ids ≡ true)
    → All (λ r. any (text_eq r.validation_result_id) ids ≡ true) rs
own-asked ids [] h = tt
own-asked ids (r ∷ rs) h = (
  h r.validation_result_id (rw (text_eq_refl r.validation_result_id, any) refl),
  own-asked ids rs (λ t e. h t (
      later (text_eq t r.validation_result_id)
        (any (text_eq t) (map (λ q. q.validation_result_id) rs)) e)),
)
  where
    later : (a b : Bool) → b ≡ true → (a || b) ≡ true
    later a b e = ground arith

map-row_summary :
    (f g : Text → List Finding) (p : Text → Type 0) (rs : List QueueRow)
    → ((id : Text) → p id → f id ≡ g id)
    → All (λ r. p r.validation_result_id) rs
    → map (row_summary f) rs ≡ map (row_summary g) rs
map-row_summary f g p [] same h = refl
map-row_summary f g p (r ∷ rs) same (first, rest) =
    rw (same r.validation_result_id first, map-row_summary f g p rs same rest) refl

-- What the queue lists: the open cases in the order of receipt, up to 500 of them.
pub record IsListed (db : Database) (q : QueueResponse) : Type 0 where
  pub opened : List QueueRow
  pub matching : Open db db.exceptions opened
  pub rows : List QueueRow
  pub complete : Permᴰ opened rows
  pub ordered : IsAscending rows
  pub shown : Paired (IsShown db) (take 500 rows) q.exceptions
  pub counted : q.returned_count ≡ length q.exceptions
  pub truncated : (q.truncated ≡ true) ↔ (500 < length rows)

queue_response-IsListed :
    (db : Database) (rows : List QueueRow)
    → Permᴰ (open_rows db db.exceptions) rows
    → IsAscending rows
    → IsListed db (queue_response db (take 501 rows))
queue_response-IsListed db rows complete ordered =
    let page = page_of (take 501 rows) in
    let ids = map (λ r. r.validation_result_id) page in
    let same : map (row_summary (λ id. bucket id (load_findings_by_validation_result_ids ids db)))
          page
        ≡ map (row_summary (λ id. findings_of id db)) page =
      map-row_summary (λ id. bucket id (load_findings_by_validation_result_ids ids db))
        (λ id. findings_of id db) (λ id. any (text_eq id) ids ≡ true) page
        (λ id. load_findings-findings_of id ids db) (own-asked ids page (λ t e. e)) in
    let now = same ∙ ap (map (row_summary (λ id. findings_of id db))) (page_lem 500 rows) in
    record {
      rows = rows;
      opened = open_rows db db.exceptions;
      matching = open_rows-Open db db.exceptions;
      complete = complete;
      ordered = ordered;
      shown = subst (Paired (IsShown db) (take 500 rows)) (sym now) (
          map-Paired (IsShown db) (row_summary (λ id. findings_of id db)) (row_summary-IsShown db)
            (take 500 rows));
      counted = sym (
          length-map (row_summary (λ id. bucket id (load_findings_by_validation_result_ids ids db)))
            page);
      truncated = (
        λ e. ltb→lt 500 (length rows) (sym (more_iff 500 rows) ∙ e),
        λ h. more_iff 500 rows ∙ lt→ltb 500 (length rows) h,
      );
    }

-- Where every open position is a safe integer the queue is returned: it lists the exceptions in
-- state OPEN and no others, joined with their entries and validations, in the order of receipt, the
-- first 500 of them, each with the messages of its first two findings by rule and the number of
-- further ones; and it is marked as truncated exactly if there are more than 500.
pub list_queue-IsListed :
    (db : Database)
    → all (λ r. is_safe_position r.receipt_position) (open_rows db db.exceptions) ≡ true
    → (q : QueueResponse) × (list_queue db ≡ ok q) × IsListed db q
unfolding list_queue list_open_exceptions
list_queue-IsListed db h =
    let rows = in_receipt_order (open_rows db db.exceptions) in
    let safe : all (λ r. is_safe_position r.receipt_position) (take 501 rows) ≡ true =
      all-take (λ r. is_safe_position r.receipt_position) 501 rows
        (all-in_receipt_order (λ r. is_safe_position r.receipt_position)
          (open_rows db db.exceptions) h) in
    (
      queue_response db (take 501 rows),
      rw safe refl,
      queue_response-IsListed db rows (in_receipt_order-Permᴰ (open_rows db db.exceptions))
          (in_receipt_order-IsAscending (open_rows db db.exceptions)),
    )
