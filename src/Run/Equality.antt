-- ===== src/Run/Equality.antt =====
-- wf-engine/internal/run/service.go: `reflect.DeepEqual` on snapshots of nodes and on actions. The
-- equality of their types can be decided.
use native.Mathlib.Decide.{ℕ_discrete}
use text.Mathlib.TextEquality.{eq_iff}
use mathlib.Core.Bool.{false≢true}
use fishyume.Base.{String, Bool, true, false, str_eq, ◌≡◌, refl, ◌↔◌}
use fishyume.Run.State.{NodeSnapshot}
use fishyume.Run.Action.{ResumeAction}

-- A test that holds exactly when the proposition does decides it.
abbrev pub by_test : {P : Type 0} (b : Bool) → (b ≡ true → P) → (P → b ≡ true) → Dec P
by_test true to from = yes (to refl)
by_test false to from = no (λ p. false≢true (from p))

unfoldable pub String-discrete : Discrete String
String-discrete a b = by_test (str_eq a b) (eq_iff a b).0 (eq_iff a b).1

unfoldable pub NodeSnapshot-discrete : Discrete NodeSnapshot
unfolding String-discrete
NodeSnapshot-discrete = hlevel (String-discrete, ℕ_discrete)

abbrev pub decided {ℓ} : {P : Type ℓ} → Dec P → Bool
decided (yes p) = true
decided (no n) = false

unfoldable pub ResumeAction-discrete : Discrete ResumeAction
unfolding String-discrete
ResumeAction-discrete = hlevel (String-discrete, ℕ_discrete)

-- `reflect.DeepEqual(a, b)`
unfoldable pub is_same {ℓ} : {A : Type ℓ} → Discrete A → A → A → Bool
is_same dec a b = decided (dec a b)

decided-eq {ℓ} : {P : Type ℓ} (d : Dec P) → (decided d ≡ true) ↔ P
decided-eq (yes p) = (λ h. p, λ q. refl)
decided-eq (no n) = (λ h. absurd (false≢true h), λ q. absurd (n q))

pub is_same-eq {ℓ} : {A : Type ℓ} (dec : Discrete A) (a b : A) → (is_same dec a b ≡ true) ↔ (a ≡ b)
unfolding is_same
is_same-eq dec a b = decided-eq (dec a b)

pub is_same_refl {ℓ} : {A : Type ℓ} (dec : Discrete A) (a : A) → is_same dec a a ≡ true
is_same_refl dec a = (is_same-eq dec a a).1 refl
