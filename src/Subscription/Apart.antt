-- ===== src/Subscription/Apart.antt =====
-- Items whose keys are all different: where one stands does not matter to the sorted list.
use easysub.Prelude.{ℕ, ◌≡◌, ◌≢◌, refl, sym, ◌∙◌, ap, List, [], ◌∷◌, ◌++◌, append_assoc, All, arith}
use easysub.Subscription.Collect.{insert_by_key, sort_by_key}

module _ {A : Type 0} (key : A → ℕ) where
  insert_by_key-insert_by_key :
      (a b : A) (l : List A)
      → key a ≢ key b
      → insert_by_key key a (insert_by_key key b l) ≡ insert_by_key key b (insert_by_key key a l)
  unfolding insert_by_key
  insert_by_key-insert_by_key a b [] h = ground (arith, h)
  insert_by_key-insert_by_key a b (c ∷ l) h = ground (arith, h, insert_by_key-insert_by_key a b l h)

  -- No key stands twice: the list may be reordered.
  abbrev pub Apart : A → List A → Type 0
  Apart a = All (λ b. key a ≢ key b)

  abbrev pub AllApart : List A → Type 0
  AllApart [] = Unit
  AllApart (a ∷ l) = Apart a l × AllApart l

  sort_by_key-move :
      (before : List A) (a : A) (after : List A)
      → Apart a before
      → sort_by_key key (before ++ a ∷ after)
        ≡ insert_by_key key a (sort_by_key key (before ++ after))
  unfolding sort_by_key
  sort_by_key-move [] a after h = refl
  sort_by_key-move (b ∷ before) a after h =
      ap (insert_by_key key b) (sort_by_key-move before a after h.1)
      ∙ insert_by_key-insert_by_key b a (sort_by_key key (before ++ after)) (λ e. h.0 (sym e))

  Apart-delete :
      (b : A) (before : List A) (a : A) (after : List A)
      → Apart b (before ++ a ∷ after)
      → (key b ≢ key a) × Apart b (before ++ after)
  Apart-delete b [] a after h = h
  Apart-delete b (c ∷ before) a after h =
      let (k, r) = Apart-delete b before a after h.1 in (k, (h.0, r))

  AllApart-delete :
      (before : List A) (a : A) (after : List A)
      → AllApart (before ++ a ∷ after)
      → Apart a (before ++ after) × AllApart (before ++ after)
  AllApart-delete [] a after h = h
  AllApart-delete (b ∷ before) a after h =
      let (k, r) = Apart-delete b before a after h.0 in
      let (s, t) = AllApart-delete before a after h.1 in ((λ e. k (sym e), s), (r, t))

  Apart-insert :
      (b : A) (before : List A) (a : A) (after : List A)
      → key b ≢ key a
      → Apart b (before ++ after)
      → Apart b (before ++ a ∷ after)
  Apart-insert b [] a after k h = (k, h)
  Apart-insert b (c ∷ before) a after k h = (h.0, Apart-insert b before a after k h.1)

  AllApart-insert :
      (before : List A) (a : A) (after : List A)
      → Apart a (before ++ after)
      → AllApart (before ++ after)
      → AllApart (before ++ a ∷ after)
  AllApart-insert [] a after h k = (h, k)
  AllApart-insert (b ∷ before) a after h k =
      (Apart-insert b before a after (λ e. h.0 (sym e)) k.0, AllApart-insert before a after h.1 k.1)

  Apart-left : (a : A) (l m : List A) → Apart a (l ++ m) → Apart a l
  Apart-left a [] m h = tt
  Apart-left a (b ∷ l) m h = (h.0, Apart-left a l m h.1)

  -- An item moves to the left.
  pub record Moved (l m : List A) : Type 0 where
    pub sorted : sort_by_key key l ≡ sort_by_key key m
    pub apart : AllApart m

  pub move-left :
      (f b q : List A) (a : A)
      → AllApart ((f ++ b) ++ a ∷ q)
      → Moved ((f ++ b) ++ a ∷ q) (f ++ a ∷ (b ++ q))
  move-left f b q a h =
      let (new, rest) = AllApart-delete (f ++ b) a q h in
      let new' : Apart a (f ++ (b ++ q)) = rw⁻¹ (append_assoc f b q) new in
      record {
        sorted =
            sort_by_key-move (f ++ b) a q (Apart-left a (f ++ b) q new)
            ∙ ap (λ l. insert_by_key key a (sort_by_key key l)) (append_assoc f b q)
            ∙ sym (sort_by_key-move f a (b ++ q) (Apart-left a f (b ++ q) new'));
        apart = AllApart-insert f a (b ++ q) new' (rw⁻¹ (append_assoc f b q) rest);
      }
