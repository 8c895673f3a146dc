-- ===== src/TailQueue.antt =====
-- Assignment_1/Project1/gtthreads/src/gt_tailq.h, a copy of FreeBSD's queue.h, as the run queues
-- use it: an interface over lists of pointers, and the list that meets it.
use advanced_oslab.Prelude.{
  ℕ, ◌<◌, ◌≡◌, refl, Bool, Option, List, [], ◌∷◌, ◌++◌, is_nil, head?, count, erase,
}

-- A head stands for the pointers linked from it, first to last. `TAILQ_REMOVE` takes its element
-- for a member, and what it does to another is not said.
pub record TailQueue : Type 1 where
  pub Head : Type 0
  pub init : Head
  pub insert_tail : Head → ℕ → Head
  pub remove : Head → ℕ → Head
  pub first : Head → Option ℕ
  pub is_empty : Head → Bool
  pub elems : Head → List ℕ
  pub elems-init : elems init ≡ []
  pub elems-insert_tail : (h : Head) (u : ℕ) → elems (insert_tail h u) ≡ elems h ++ u ∷ []
  pub elems-remove :
      (h : Head) (u : ℕ) → 0 < count u (elems h) → elems (remove h u) ≡ erase u (elems h)
  pub first-elems : (h : Head) → first h ≡ head? (elems h)
  pub is_empty-elems : (h : Head) → is_empty h ≡ is_nil (elems h)

abbrev pub list_queue : TailQueue
list_queue = record {
  Head = List ℕ;
  init = [];
  insert_tail = λ h u. h ++ u ∷ [];
  remove = λ h u. erase u h;
  first = head?;
  is_empty = is_nil;
  elems = λ h. h;
  elems-init = refl;
  elems-insert_tail = λ h u. refl;
  elems-remove = λ h u p. refl;
  first-elems = λ h. refl;
  is_empty-elems = λ h. refl;
}
