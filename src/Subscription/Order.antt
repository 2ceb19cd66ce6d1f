-- ===== src/Subscription/Order.antt =====
-- The order in which tasks finish leaves no trace in what is collected.
use easysub.Prelude.{
  ℕ, ◌≡◌, refl, sym, ◌∙◌, ap, false, ◌||◌, List, [], ◌∷◌, ◌++◌, append-nil, append_assoc, any,
}
use easysub.Error.{Result, ok, err, is_err}
use easysub.Subscription.Collect.{
  Collecting, collecting, failed, Step, start, finish, give_up, Run, stop, more, begin,
  finished_with, oks, sort_by_key,
}
use easysub.Subscription.Apart.{AllApart, move-left}

module _ {A : Type 0} (key : A → ℕ) where
  -- Everything that a state has given or may still give.
  abbrev all_of : Collecting A → List A
  all_of (collecting running waiting finished) = finished ++ (oks running ++ oks waiting)
  all_of (failed e) = []

  oks-append : (s t : List (Result A)) → oks (s ++ t) ≡ oks s ++ oks t
  oks-append [] t = refl
  oks-append (ok a ∷ s) t = ap (λ l. a ∷ l) (oks-append s t)
  oks-append (err e ∷ s) t = oks-append s t

  -- The tasks that have not finished.
  abbrev open_tasks : Collecting A → List (Result A)
  open_tasks (collecting running waiting finished) = running ++ waiting
  open_tasks (failed e) = []

  -- What a run keeps as long as it does not fail: the results once they are sorted, that no key stands
  -- twice, and whether there is an error.
  record Keeps (s t : Collecting A) : Type 0 where
    pub sorted : sort_by_key key (all_of s) ≡ sort_by_key key (all_of t)
    pub apart : AllApart key (all_of t)
    pub errors : any is_err (open_tasks s) ≡ any is_err (open_tasks t)

  KeepsTo : Collecting A → Collecting A → Type 0
  KeepsTo s (failed e) = Unit
  KeepsTo (failed e) (collecting running waiting finished) = ⊥
  KeepsTo (collecting r w f) (collecting running waiting finished) =
      Keeps (collecting r w f) (collecting running waiting finished)

  KeepsTo-self : (s : Collecting A) → AllApart key (all_of s) → KeepsTo s s
  unfolding KeepsTo
  KeepsTo-self (failed e) h = tt
  KeepsTo-self (collecting r w f) h = record { sorted = refl; apart = h; errors = refl }

  KeepsTo-chain :
      (s t u : Collecting A) → KeepsTo s t → (AllApart key (all_of t) → KeepsTo t u) → KeepsTo s u
  unfolding KeepsTo
  KeepsTo-chain s t (failed e) k f = tt
  KeepsTo-chain (failed d) (failed e) (collecting r w l) k f = f tt
  KeepsTo-chain (collecting r' w' l') (failed e) (collecting r w l) k f = absurd (f tt)
  KeepsTo-chain (failed e) (collecting r' w' l') (collecting r w l) k f = absurd k
  KeepsTo-chain (collecting r1 w1 l1) (collecting r2 w2 l2) (collecting r w l) k f =
      let k' = f k.apart in
      record { sorted = k.sorted ∙ k'.sorted; apart = k'.apart; errors = k.errors ∙ k'.errors }

  start_lem :
      (running : List (Result A)) (task : Result A) (waiting : List (Result A)) (finished : List A)
      → all_of (collecting running (task ∷ waiting) finished)
        ≡ all_of (collecting (running ++ task ∷ []) waiting finished)
  start_lem running (ok a) waiting finished =
      rw (oks-append running (ok a ∷ []), append_assoc (oks running) (a ∷ []) (oks waiting)) refl
  start_lem running (err e) waiting finished =
      rw (oks-append running (err e ∷ []), append_assoc (oks running) [] (oks waiting)) refl

  finish_from :
      (before : List (Result A)) (a : A) (after waiting : List (Result A)) (finished : List A)
      → all_of (collecting (before ++ ok a ∷ after) waiting finished)
        ≡ (finished ++ oks before) ++ a ∷ (oks after ++ oks waiting)
  finish_from before a after waiting finished =
      rw
        (
          oks-append before (ok a ∷ after),
          append_assoc finished (oks before) (a ∷ (oks after ++ oks waiting)),
          append_assoc (oks before) (a ∷ oks after) (oks waiting),
        )
        refl

  finish_to :
      (before : List (Result A)) (a : A) (after waiting : List (Result A)) (finished : List A)
      → all_of (collecting (before ++ after) waiting (finished ++ a ∷ []))
        ≡ finished ++ a ∷ (oks before ++ (oks after ++ oks waiting))
  finish_to before a after waiting finished =
      rw
        (
          oks-append before after,
          append_assoc finished (a ∷ []) ((oks before ++ oks after) ++ oks waiting),
          append_assoc (oks before) (oks after) (oks waiting),
        )
        refl

  errors_lem :
      (before : List (Result A)) (a : A) (after waiting : List (Result A))
      → any is_err ((before ++ ok a ∷ after) ++ waiting) ≡ any is_err ((before ++ after) ++ waiting)
  errors_lem [] a after waiting = refl
  errors_lem (r ∷ before) a after waiting =
      ap (λ t. is_err r || t) (errors_lem before a after waiting)

  Step-KeepsTo :
      (limit : ℕ) (s t : Collecting A) → Step limit s t → AllApart key (all_of s) → KeepsTo s t
  unfolding KeepsTo
  Step-KeepsTo limit s t (start running task waiting finished room) h = record {
    sorted = ap (sort_by_key key) (start_lem running task waiting finished);
    apart = rw⁻¹ (start_lem running task waiting finished) h;
    errors = ap (any is_err) (sym (append_assoc running (task ∷ []) waiting));
  }
  Step-KeepsTo limit s t (finish before a after waiting finished) h =
      let moved =
        move-left key finished (oks before) (oks after ++ oks waiting) a
          (rw⁻¹ (finish_from before a after waiting finished) h) in
      record {
        sorted =
            ap (sort_by_key key) (finish_from before a after waiting finished)
            ∙ moved.sorted
            ∙ ap (sort_by_key key) (sym (finish_to before a after waiting finished));
        apart = rw (finish_to before a after waiting finished) moved.apart;
        errors = errors_lem before a after waiting;
      }
  Step-KeepsTo limit s t (give_up before e after waiting finished) h = tt

  Run-KeepsTo :
      (limit : ℕ) (s u : Collecting A) → Run limit s u → AllApart key (all_of s) → KeepsTo s u
  Run-KeepsTo limit s u stop h = KeepsTo-self s h
  Run-KeepsTo limit s u (more {t = t} step rest) h =
      KeepsTo-chain s t u (Step-KeepsTo limit s t step h) (Run-KeepsTo limit t u rest)

  -- However the tasks take turns, a run that ends well has seen no error, and sorting what has
  -- finished gives what sorting the results of the tasks gives, provided that no key stands twice.
  pub Run-sorted :
      (limit : ℕ) (tasks : List (Result A)) (finished : List A)
      → AllApart key (oks tasks)
      → Run limit (begin tasks) (finished_with finished)
      → (any is_err tasks ≡ false) × (sort_by_key key finished ≡ sort_by_key key (oks tasks))
  unfolding KeepsTo
  Run-sorted limit tasks finished h run =
      let k = Run-KeepsTo limit (begin tasks) (finished_with finished) run h in
      (k.errors, ap (sort_by_key key) (sym (append-nil finished)) ∙ sym k.sorted)
