-- ===== src/Repository/Steps.antt =====
-- repository.go and model.go: what the steps of a write do, as relations between the documents and
-- the worlds before and after them.
use esodm.Prelude.{◌≡◌, ◌↔◌, refl, sym, ap, ◌∙◌, Option, none, some}
use esodm.Error.{Err, Result, ok, err, caused, committed, validation}
use esodm.Bulk.{Action}
use esodm.Write.{WriteResult}
use esodm.Effect.{Effect, ◌>>=◌, lift, proceed}
use esodm.Repository.{
  Repository, stamp, stamped, changed, run_before_write, run_validate, as_validation_effect,
}
use esodm.Repository.Writing.{run_after_write, hook_answer}

module _ {W : Type 0} where
  -- An effect succeeds exactly when its parts do, one after the other.
  pub bind_iff :
      {A B : Type 0} (m : Effect W A) (next : A → Effect W B) (w w' : W) (b : B)
      → ((m >>= next) w ≡ (ok b, w'))
        ↔ ((a : A) × (v : W) × (m w ≡ (ok a, v)) × (next a v ≡ (ok b, w')))
  unfolding ◌>>=◌
  bind_iff {A = A} {B = B} m next w w' b =
      ((λ q. of_answer (m w) refl q), (λ q. ap (proceed next) (q.2) ∙ q.3))
    where
      of_answer :
          (x : Result A × W)
          → m w ≡ x
          → proceed next x ≡ (ok b, w')
          → (a : A) × (v : W) × (m w ≡ (ok a, v)) × (next a v ≡ (ok b, w'))
      of_answer (err e, v) p q = absurd (apart e v q)
        where
          apart : (e : Err) (v : W) → ◌≡◌ {A = Result B × W} (err e, v) (ok b, w') → ⊥
          apart e v q = cc
      of_answer (ok a, v) p q = (a, v, p, q)

  pub lift_iff :
      {A B : Type 0} (r : Result A) (next : A → Effect W B) (w w' : W) (b : B)
      → ((lift r >>= next) w ≡ (ok b, w')) ↔ ((a : A) × (r ≡ ok a) × (next a w ≡ (ok b, w')))
  unfolding ◌>>=◌ lift
  lift_iff {A = A} {B = B} (err e) next w w' b =
      ((λ q. absurd (apart q)), (λ q. absurd (never q.0 q.1)))
    where
      apart : ◌≡◌ {A = Result B × W} (err e, w) (ok b, w') → ⊥
      apart q = cc

      never : (a : A) → ◌≡◌ {A = Result A} (err e) (ok a) → ⊥
      never a q = cc
  lift_iff {A = A} (ok a) next w w' b =
      ((λ q. (a, refl, q)), (λ q. ap (λ x. next x w) (same q.0 q.1) ∙ q.2))
    where
      same : (a' : A) → ok a ≡ ok a' → a ≡ a'
      same a' q = cc

  -- Stamping: what the stamper of the model makes of a document, if it has one.
  pub data Stamped {Doc : Type 0} (stamper : Option (Action → Doc → W → Doc × W)) (a : Action)
      (d : Doc) (w : W) (d' : Doc) (w' : W) : Type 0 where
    not_stamped : stamper ≡ none → d' ≡ d → w' ≡ w → Stamped stamper a d w d' w'
    by_stamper :
        (f : Action → Doc → W → Doc × W)
        → stamper ≡ some f
        → f a d w ≡ (d', w')
        → Stamped stamper a d w d' w'

  -- A hook that returns no error, or no hook.
  pub data Passed {Doc : Type 0} (hook : Option (Doc → W → (Doc × Option Err) × W)) (d : Doc)
      (w : W) (d' : Doc) (w' : W) : Type 0 where
    not_hooked : hook ≡ none → d' ≡ d → w' ≡ w → Passed hook d w d' w'
    by_hook :
        (f : Doc → W → (Doc × Option Err) × W)
        → hook ≡ some f
        → f d w ≡ ((d', none), w')
        → Passed hook d w d' w'

  pub data PassedFor {Doc : Type 0} (hook : Option (Action → Doc → W → (Doc × Option Err) × W))
      (a : Action) (d : Doc) (w : W) (d' : Doc) (w' : W) : Type 0 where
    not_hooked_for : hook ≡ none → d' ≡ d → w' ≡ w → PassedFor hook a d w d' w'
    by_hook_for :
        (f : Action → Doc → W → (Doc × Option Err) × W)
        → hook ≡ some f
        → f a d w ≡ ((d', none), w')
        → PassedFor hook a d w d' w'

  -- The AfterWrite hook returns no error for a result, or there is none.
  pub data AcceptedBy (hook : Option (Action → WriteResult → W → Option Err × W)) (a : Action)
      (result : WriteResult) (w : W) : Type 0 where
    not_asked : hook ≡ none → AcceptedBy hook a result w
    by_after_write :
        (f : Action → WriteResult → W → Option Err × W) (w' : W)
        → hook ≡ some f
        → f a result w ≡ (none, w')
        → AcceptedBy hook a result w

  module _ {Doc : Type 0} (d' : Doc) (w' : W) where
    apart_option : {A : Type 0} (a : A) → ◌≡◌ {A = Option A} none (some a) → ⊥
    apart_option a q = cc

    option_apart : {A : Type 0} (a : A) → ◌≡◌ {A = Option A} (some a) none → ⊥
    option_apart a q = cc

    same_some : {A : Type 0} (a b : A) → some a ≡ some b → b ≡ a
    same_some a b q = cc

    same_ok : (d : Doc) (w : W) → ◌≡◌ {A = Result Doc × W} (ok d, w) (ok d', w') → d' ≡ d
    same_ok d w q = cc

    same_next : (d : Doc) (w : W) → ◌≡◌ {A = Result Doc × W} (ok d, w) (ok d', w') → w' ≡ w
    same_next d w q = cc

    stamped-same : (x : Doc × W) → stamped x ≡ (ok d', w') → x ≡ (d', w')
    stamped-same (d, w) q = cc

    changed-same : (x : (Doc × Option Err) × W) → changed x ≡ (ok d', w') → x ≡ ((d', none), w')
    changed-same ((d, none), w) q = cc
    changed-same ((d, some e), w) q = absurd (apart q)
      where
        apart : ◌≡◌ {A = Result Doc × W} (err e, w) (ok d', w') → ⊥
        apart q = cc

    validated-same :
        (x : (Doc × Option Err) × W)
        → as_validation_effect (changed x) ≡ (ok d', w')
        → x ≡ ((d', none), w')
    validated-same ((d, none), w) q = cc
    validated-same ((d, some e), w) q = absurd (apart q)
      where
        apart : ◌≡◌ {A = Result Doc × W} (err (caused validation e), w) (ok d', w') → ⊥
        apart q = cc

    pub stamp_iff :
        (stamper : Option (Action → Doc → W → Doc × W)) (a : Action) (d : Doc) (w : W)
        → (stamp stamper a d w ≡ (ok d', w')) ↔ Stamped stamper a d w d' w'
    stamp_iff none a d w = ((λ q. not_stamped refl (same_ok d w q) (same_next d w q)), back)
      where
        back : Stamped none a d w d' w' → ◌≡◌ {A = Result Doc × W} (ok d, w) (ok d', w')
        back (not_stamped e p q) = rw (p, q) refl
        back (by_stamper f e q) = absurd (apart_option f e)
    stamp_iff (some f) a d w = ((λ q. by_stamper f refl (stamped-same (f a d w) q)), back)
      where
        back : Stamped (some f) a d w d' w' → stamped (f a d w) ≡ (ok d', w')
        back (not_stamped e p q) = absurd (option_apart f e)
        back (by_stamper g e q) = ap stamped (sym (ap (λ h. h a d w) (same_some f g e)) ∙ q)

    pub validate_iff :
        (hook : Option (Doc → W → (Doc × Option Err) × W)) (d : Doc) (w : W)
        → (run_validate hook d w ≡ (ok d', w')) ↔ Passed hook d w d' w'
    validate_iff none d w = ((λ q. not_hooked refl (same_ok d w q) (same_next d w q)), back)
      where
        back : Passed none d w d' w' → ◌≡◌ {A = Result Doc × W} (ok d, w) (ok d', w')
        back (not_hooked e p q) = rw (p, q) refl
        back (by_hook f e q) = absurd (apart_option f e)
    validate_iff (some f) d w = ((λ q. by_hook f refl (validated-same (f d w) q)), back)
      where
        back : Passed (some f) d w d' w' → as_validation_effect (changed (f d w)) ≡ (ok d', w')
        back (not_hooked e p q) = absurd (option_apart f e)
        back (by_hook g e q) =
            ap (λ x. as_validation_effect (changed x)) (sym (ap (λ h. h d w) (same_some f g e)) ∙ q)

    pub before_write_iff :
        (hook : Option (Action → Doc → W → (Doc × Option Err) × W)) (a : Action) (d : Doc) (w : W)
        → (run_before_write hook a d w ≡ (ok d', w')) ↔ PassedFor hook a d w d' w'
    before_write_iff none a d w =
        ((λ q. not_hooked_for refl (same_ok d w q) (same_next d w q)), back)
      where
        back : PassedFor none a d w d' w' → ◌≡◌ {A = Result Doc × W} (ok d, w) (ok d', w')
        back (not_hooked_for e p q) = rw (p, q) refl
        back (by_hook_for f e q) = absurd (apart_option f e)
    before_write_iff (some f) a d w = ((λ q. by_hook_for f refl (changed-same (f a d w) q)), back)
      where
        back : PassedFor (some f) a d w d' w' → changed (f a d w) ≡ (ok d', w')
        back (not_hooked_for e p q) = absurd (option_apart f e)
        back (by_hook_for g e q) = ap changed (sym (ap (λ h. h a d w) (same_some f g e)) ∙ q)

module _ {Doc V W : Type 0} (r : Repository Doc V W) where
  pub after_write_iff :
      (hook : Option (Action → WriteResult → W → Option Err × W)) (a : Action)
      (result : WriteResult) (w : W)
      → ((run_after_write r hook a result w).0.1 ≡ none) ↔ AcceptedBy hook a result w
  after_write_iff none a result w = ((λ q. not_asked refl), (λ q. refl))
  after_write_iff (some f) a result w = (there (f a result w) refl, back)
    where
      there :
          (x : Option Err × W)
          → f a result w ≡ x
          → (hook_answer r result x).0.1 ≡ none
          → AcceptedBy (some f) a result w
      there (none, v) p q = by_after_write f v refl p
      there (some e, v) p q = absurd (apart q)
        where
          apart : ◌≡◌ {A = Option Err} (some (committed e)) none → ⊥
          apart q = cc

      back : AcceptedBy (some f) a result w → (hook_answer r result (f a result w)).0.1 ≡ none
      back (not_asked e) = absurd (apart e)
        where
          apart : some f ≡ none → ⊥
          apart q = cc
      back (by_after_write g v e q) =
          ap (λ x. (hook_answer r result x).0.1) (ap (λ h. h a result w) (same g e) ∙ q)
        where
          same : (g : Action → WriteResult → W → Option Err × W) → some f ≡ some g → f ≡ g
          same g q = cc
