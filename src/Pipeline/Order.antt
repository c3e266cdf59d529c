-- ===== src/Pipeline/Order.antt =====
-- The order of the middlewares of src/common/message/pipeline.rs.
use flare_core.Base.{
  ℕ, ◌≡◌, refl, ◌∙◌, ap, Bool, true, not, ◌&&◌, List, [], ◌∷◌, ◌++◌, arith, leb, nat_beq, filter,
  if◌then◌else◌,
}
use flare_core.Connection.Info.{MessageParser}
use flare_core.Pipeline.{
  MessageMiddleware, MessagePipeline, priority, insert_sorted, sort_by_priority, add_middleware,
  remove_middleware, add_processor, remove_processor, update_parser, pipeline_new,
}

module _ {F : Type 0} where
  -- No priority is below `n`.
  abbrev pub all_from : ℕ → List (MessageMiddleware F) → Bool
  all_from n [] = true
  all_from n (x ∷ xs) = leb n (priority x) && all_from n xs

  abbrev pub is_sorted : List (MessageMiddleware F) → Bool
  is_sorted [] = true
  is_sorted (x ∷ xs) = all_from (priority x) xs && is_sorted xs

  -- Where a middleware that is added goes: before the first of a greater priority.
  abbrev pub placed : MessageMiddleware F → List (MessageMiddleware F) → List (MessageMiddleware F)
  placed m [] = m ∷ []
  placed m (x ∷ xs) =
      let rest = placed m xs in if leb (priority x) (priority m) then x ∷ rest else m ∷ x ∷ xs

  insert_sorted-placed :
      (m x : MessageMiddleware F) (xs : List (MessageMiddleware F))
      → all_from (priority x) xs ≡ true
      → insert_sorted x (placed m xs) ≡ placed m (x ∷ xs)
  insert_sorted-placed m x [] h = ground arith
  insert_sorted-placed m x (y ∷ ys) h = ground (arith, insert_sorted-placed m y ys)

  sort-placed :
      (m : MessageMiddleware F) (xs : List (MessageMiddleware F))
      → is_sorted xs ≡ true
      → sort_by_priority (xs ++ m ∷ []) ≡ placed m xs
  unfolding sort_by_priority
  sort-placed m [] h = refl
  sort-placed m (x ∷ xs) h =
      ap (insert_sorted x) (sort-placed m xs (ground arith))
      ∙ insert_sorted-placed m x xs (ground arith)

  -- In a pipeline whose middlewares are in the order of their priorities, one that is added goes
  -- before the first of a greater priority number, and nothing else changes.
  add_middleware-placed :
      (l : MessagePipeline F) (m : MessageMiddleware F)
      → is_sorted l.middlewares ≡ true
      → add_middleware l m ≡ record l { middlewares = placed m l.middlewares }
  unfolding add_middleware sort_by_priority
  add_middleware-placed l m h =
      ap (λ ms. record l { middlewares = ms }) (sort-placed m l.middlewares h)

  all_from-placed :
      (n : ℕ) (m : MessageMiddleware F) (xs : List (MessageMiddleware F))
      → all_from n (placed m xs) ≡ (leb n (priority m) && all_from n xs)
  all_from-placed n m [] = refl
  all_from-placed n m (x ∷ xs) = ground (arith, all_from-placed n m xs)

  all_from-weaker :
      (n k : ℕ) (xs : List (MessageMiddleware F))
      → leb k n ≡ true
      → all_from n xs ≡ true
      → all_from k xs ≡ true
  all_from-weaker n k [] h g = refl
  all_from-weaker n k (x ∷ xs) h g = ground (arith, all_from-weaker n k xs)

  placed-is_sorted :
      (m : MessageMiddleware F) (xs : List (MessageMiddleware F))
      → is_sorted xs ≡ true
      → is_sorted (placed m xs) ≡ true
  placed-is_sorted m [] h = refl
  placed-is_sorted m (x ∷ xs) h = ground (
    arith,
    placed-is_sorted m xs,
    all_from-placed (priority x) m xs,
    all_from-weaker (priority x) (priority m) xs,
  )

  all_from-filter :
      (n : ℕ) (f : MessageMiddleware F → Bool) (xs : List (MessageMiddleware F))
      → all_from n xs ≡ true
      → all_from n (filter f xs) ≡ true
  all_from-filter n f [] h = refl
  all_from-filter n f (x ∷ xs) h = ground (arith, all_from-filter n f xs)

  filter-is_sorted :
      (f : MessageMiddleware F → Bool) (xs : List (MessageMiddleware F))
      → is_sorted xs ≡ true
      → is_sorted (filter f xs) ≡ true
  filter-is_sorted f [] h = refl
  filter-is_sorted f (x ∷ xs) h =
      ground (arith, filter-is_sorted f xs, all_from-filter (priority x) f xs)

-- What is done to a pipeline.
pub data Edit (F : Type 0) : Type 0 where
  adds removes : MessageMiddleware F → Edit F
  adds_processor removes_processor : ℕ → Edit F
  updates : MessageParser → Edit F

module _ {F : Type 0} where
  unfoldable pub edit : MessagePipeline F → Edit F → MessagePipeline F
  edit l (adds m) = add_middleware l m
  edit l (removes m) = remove_middleware l m
  edit l (adds_processor p) = add_processor l p
  edit l (removes_processor p) = remove_processor l p
  edit l (updates p) = update_parser l p

  abbrev pub edit_all : MessagePipeline F → List (Edit F) → MessagePipeline F
  edit_all l [] = l
  edit_all l (e ∷ es) = edit_all (edit l e) es

  edit-is_sorted :
      (l : MessagePipeline F) (e : Edit F)
      → is_sorted l.middlewares ≡ true
      → is_sorted (edit l e).middlewares ≡ true
  unfolding edit add_processor remove_processor update_parser remove_middleware
  edit-is_sorted l (adds m) h =
      rw (add_middleware-placed l m h) (placed-is_sorted m l.middlewares h)
  edit-is_sorted l (removes m) h = filter-is_sorted (λ x. not (nat_beq x.ptr m.ptr)) l.middlewares h
  edit-is_sorted l (adds_processor p) h = h
  edit-is_sorted l (removes_processor p) h = h
  edit-is_sorted l (updates p) h = h

  edits-is_sorted :
      (l : MessagePipeline F) (es : List (Edit F))
      → is_sorted l.middlewares ≡ true
      → is_sorted (edit_all l es).middlewares ≡ true
  edits-is_sorted l [] h = h
  edits-is_sorted l (e ∷ es) h = edits-is_sorted (edit l e) es (edit-is_sorted l e h)

  -- The middlewares of a pipeline that was new are in the order of their priorities, whatever was
  -- added, removed and updated.
  pub edit_all-is_sorted :
      (p : MessageParser) (es : List (Edit F))
      → is_sorted (edit_all (pipeline_new p) es).middlewares ≡ true
  unfolding pipeline_new
  edit_all-is_sorted p es = edits-is_sorted (pipeline_new p) es refl
