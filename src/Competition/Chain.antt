-- ===== src/Competition/Chain.antt =====
-- The versions of a match's verified result.
use go_book.Base.{
  List, [], ap, arith, false, length, refl, some, suc, sym, ℕ, ◌++◌, ◌+◌, ◌∙◌, ◌∷◌, ◌≡◌,
}
use go_book.Base.Text.{text_eq, text_eq_iff}
use go_book.Competition.Match.{VerifiedResult, has_verification}
use go_book.Competition.Types.{EntityId}
use go_book.Competition.Verify.{last_of}
use mathlib.Core.Option.{some-injective}

-- Each version is one more than the one before, and names it; the first follows none.
abbrev pub Follows : EntityId → ℕ → List VerifiedResult → Type 0
Follows id version [] = Unit
Follows id version (v ∷ vs) =
    (v.supersedes_id ≡ id) × (v.version ≡ suc version) × Follows v.id v.version vs

-- No ID is used twice.
abbrev pub Fresh : List VerifiedResult → Type 0
Fresh [] = Unit
Fresh (v ∷ vs) = (has_verification vs v.id ≡ false) × Fresh vs

pub Follows-first :
    (vs : List VerifiedResult) (v : VerifiedResult)
    → vs ≡ []
    → v.supersedes_id ≡ []
    → v.version ≡ 1
    → Follows [] 0 (vs ++ v ∷ [])
Follows-first [] v _ e f = (e, f, tt)
Follows-first (u ∷ vs) v h e f = cc

pub Follows-append :
    (id : EntityId) (version : ℕ) (vs : List VerifiedResult) (v : VerifiedResult)
    {last : VerifiedResult}
    → Follows id version vs
    → last_of vs ≡ some last
    → v.supersedes_id ≡ last.id
    → v.version ≡ suc last.version
    → Follows id version (vs ++ v ∷ [])
Follows-append id version [] v h e s n = cc
Follows-append id version (u ∷ []) v (hs, hn, _) e s n =
    let same = some-injective u _ e in
    (
      hs,
      hn,
      (
        s ∙ ap (λ (x : VerifiedResult). x.id) (sym same),
        n ∙ ap (λ (x : VerifiedResult). suc x.version) (sym same),
        tt,
      ),
    )
Follows-append id version (u ∷ w ∷ vs) v (hs, hn, rest) e s n =
    (hs, hn, Follows-append u.id u.version (w ∷ vs) v rest e s n)

has_verification-append :
    (vs : List VerifiedResult) (v : VerifiedResult) (id : EntityId)
    → has_verification vs id ≡ false
    → text_eq v.id id ≡ false
    → has_verification (vs ++ v ∷ []) id ≡ false
unfolding has_verification
has_verification-append [] v id h ne = rw ne refl
has_verification-append (u ∷ vs) v id h ne = ground (arith, has_verification-append vs v id)

pub Fresh-append :
    (vs : List VerifiedResult) (v : VerifiedResult)
    → Fresh vs
    → has_verification vs v.id ≡ false
    → Fresh (vs ++ v ∷ [])
unfolding has_verification
Fresh-append [] v h f = (refl, tt)
Fresh-append (u ∷ vs) v (h, hs) f = (
  has_verification-append vs v u.id h
      (ground (arith, text_eq_iff v.id u.id, text_eq_iff u.id v.id)),
  Fresh-append vs v hs (ground arith),
)

-- On a chain from zero, the version is the place in the list.
pub Follows-length :
    (id : EntityId) (version : ℕ) (vs : List VerifiedResult) {last : VerifiedResult}
    → Follows id version vs
    → last_of vs ≡ some last
    → last.version ≡ version + length vs
Follows-length id version [] h e = cc
Follows-length id version (u ∷ []) {last} (_, n, _) e =
    let same = ap (λ (x : VerifiedResult). x.version) (some-injective u last e) in
    omega (arith, n, same)
Follows-length id version (u ∷ w ∷ vs) {last} (_, n, rest) e =
    let ih = Follows-length u.id u.version (w ∷ vs) {last = last} rest e in omega (arith, ih, n)
