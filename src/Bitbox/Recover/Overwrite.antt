-- ===== src/Bitbox/Recover/Overwrite.antt =====
-- Operations that overwrite fixed places of a store (those of `recover` in
-- nomt/src/bitbox/mod.rs): run again after a run that did not end, they give the same store.
use nomt.Base.{◌≡◌, refl, ap, ◌∙◌, sym, Option, none, some}
use mathlib.Core.Option
use mathlib.Core.Option.{none-ne-some}

-- A value, where one is written, before that which stood there.
unfoldable pub wins {ℓ} : {A : Type ℓ} → Option A → A → A
wins none old = old
wins (some new) old = new

unfoldable pub or_else {ℓ} : {A : Type ℓ} → Option A → Option A → Option A
or_else none later = later
or_else (some first) later = some first

pub wins-or_else {ℓ} :
    {A : Type ℓ} (a b : Option A) (old : A) → wins (or_else a b) old ≡ wins a (wins b old)
unfolding wins or_else
wins-or_else none b old = refl
wins-or_else (some a) b old = refl

wins_again {ℓ} : {A : Type ℓ} (a : Option A) (old : A) → wins a (wins a old) ≡ wins a old
unfolding wins
wins_again none old = refl
wins_again (some a) old = refl

pub inj_some : {A : Type 0} (a b : A) → some a ≡ some b → a ≡ b
unfolding wins
inj_some a b e = ap (λ o. wins o a) e

pub bind-some :
    {A B : Type 0} (o : Option A) (f : A → Option B) (b : B)
    → Option.bind o f ≡ some b
    → (a : A) × (o ≡ some a) × (f a ≡ some b)
unfolding Option.bind
bind-some none f b e = absurd (none-ne-some b e)
bind-some (some a) f b e = (a, refl, e)

pub map-some :
    {A B : Type 0} (o : Option A) (f : A → B) (b : B)
    → Option.map f o ≡ some b
    → (a : A) × (o ≡ some a) × (f a ≡ b)
map-some none f b e = absurd (none-ne-some b e)
map-some (some a) f b e = (a, refl, inj_some (f a) b e)

-- A store of values at keys, and the stores that are considered.
module _ {S K V : Type 0} (IsStore : S → Type 0) (get : S → K → V) where
  pub record Written (over : K → Option V) (p q : S) : Type 0 where
    pub valid : IsStore q
    pub reads : (k : K) → get q k ≡ wins (over k) (get p k)

  -- What is written does not depend on the store, nor whether the operation succeeds.
  pub record Overwrites (op : S → Option S) : Type 0 where
    pub over : K → Option V
    pub written : (p q : S) → IsStore p → op p ≡ some q → Written over p q
    pub again : (p q r : S) → IsStore p → IsStore r → op p ≡ some q → (t : S) × (op r ≡ some t)

  pub some-Overwrites : Overwrites some
  unfolding wins
  some-Overwrites = record {
    over = λ k. none;
    written = λ p q v e. rw (← inj_some p q e) (record { valid = v; reads = λ k. refl });
    again = λ p q r v w e. (r, refl);
  }

  pub none-Overwrites : (op : S → Option S) → ((p : S) → IsStore p → op p ≡ none) → Overwrites op
  none-Overwrites op fails = record {
    over = λ k. none;
    written = λ p q v e. absurd (none-ne-some q (sym (fails p v) ∙ e));
    again = λ p q r v w e. absurd (none-ne-some q (sym (fails p v) ∙ e));
  }

  pub eq-Overwrites :
      (op same : S → Option S)
      → ((p : S) → IsStore p → same p ≡ op p)
      → Overwrites op
      → Overwrites same
  eq-Overwrites op same e o = record {
    over = o.over;
    written = λ p q v run. o.written p q v (sym (e p v) ∙ run);
    again =
        λ p q r v w run. let (t, run') = o.again p q r v w (sym (e p v) ∙ run) in (t, e r w ∙ run');
  }

  pub then-Overwrites :
      (op next : S → Option S)
      → Overwrites op
      → Overwrites next
      → Overwrites (λ p. Option.bind (op p) next)
  unfolding Option.bind
  then-Overwrites op next o n = record {
    over = λ k. or_else (n.over k) (o.over k);
    written = λ p q v e.
        let (m, first, second) = bind-some (op p) next q e in
        let w = o.written p m v first in
        let w' = n.written m q w.valid second in
        record {
          valid = w'.valid;
          reads = λ k.
              w'.reads k
              ∙ ap (wins (n.over k)) (w.reads k)
              ∙ sym (wins-or_else (n.over k) (o.over k) (get p k));
        };
    again = λ p q r v u e.
        let (m, first, second) = bind-some (op p) next q e in
        let (m', first') = o.again p m r v u first in
        let (t, second') =
          n.again m q m' (o.written p m v first).valid (o.written r m' u first').valid second in
        (t, rw first' second');
  }

  -- What a whole run gives, after a run of its first part.
  pub run_again :
      (op next : S → Option S)
      → Overwrites op
      → Overwrites next
      → ((p q : S) → IsStore p → IsStore q → ((k : K) → get p k ≡ get q k) → p ≡ q)
      → (p m q : S) → IsStore p
      → op p ≡ some m
      → next m ≡ some q
      → Option.bind (op m) next ≡ some q
  unfolding Option.bind
  run_again op next o n ext p m q v first second =
      let w = o.written p m v first in
      let w' = n.written m q w.valid second in
      let (m', first') = o.again p m m v w.valid first in
      let u = o.written m m' w.valid first' in
      let (t, second') = n.again m q m' w.valid u.valid second in
      let u' = n.written m' t u.valid second' in
      let same : t ≡ q = ext t q u'.valid w'.valid λ k.
        u'.reads k
        ∙ ap (wins (n.over k)) (
            u.reads k
            ∙ ap (wins (o.over k)) (w.reads k)
            ∙ wins_again (o.over k) (get p k)
            ∙ sym (w.reads k))
        ∙ sym (w'.reads k) in
      rw (first', second') (ap some same)
