-- ===== src/Marginfi/Interest/Valid.antt =====
-- What a valid seven-point configuration is, apart from how `validate_seven_point` of
-- marginfi-v2/programs/marginfi/src/state/interest_rate.rs finds it out.
use bot_flash_loan.Prelude.{
  ℕ, ◌≤◌, ◌<◌, ◌≡◌, ◌⊎◌, ◌↔◌, refl, sym, inl, inr, true, false, List, [], ◌∷◌, ◌++◌, Every,
  every_none, every_next, Every-map, ok, check, ◌>>=◌, ◌>>◌, >>=-eq-ok, ok-injective, leb, arith,
}
use mathlib.Core.Path.{subst}
use bot_flash_loan.Marginfi.Interest.{
  RatePoint, InterestRateConfig, used_points, check_ascending, all_between, validate_seven_point,
  invalid_config,
}

unfoldable pub IsUsed : RatePoint → Type 0
IsUsed p = 0 < p.util

unfoldable pub IsBlank : RatePoint → Type 0
IsBlank p = (p.util ≡ 0) × (p.rate ≡ 0)

unfoldable pub Between : ℕ → ℕ → RatePoint → Type 0
Between lowest highest p = (lowest ≤ p.rate) × (p.rate ≤ highest)

unfoldable pub Below : RatePoint → RatePoint → Type 0
Below p q = (p.util < q.util) × (p.rate ≤ q.rate)

-- Each point is below all later ones.
pub data Ascending : List RatePoint → Type 0 where
  ascending_none : Ascending []
  ascending_next :
      {p : RatePoint} {ps : List RatePoint} → Every (Below p) ps → Ascending ps → Ascending (p ∷ ps)

pub record Sound (c : InterestRateConfig) : Type 0 where
  pub used : List RatePoint
  pub padding : List RatePoint
  pub points_are : c.points ≡ used ++ padding
  pub in_use : Every IsUsed used
  pub blank : Every IsBlank padding
  pub ascending : Ascending used
  pub rising : c.zero_util_rate ≤ c.hundred_util_rate
  pub between : Every (Between c.zero_util_rate c.hundred_util_rate) used

padding_step :
    (p : RatePoint) (ps us : List RatePoint)
    → used_points true (p ∷ ps) ≡ ok us
    → IsBlank p × (used_points true ps ≡ ok us)
unfolding used_points IsBlank
padding_step p ps us h = ground (arith, h)

point_step :
    (p : RatePoint) (ps us : List RatePoint)
    → used_points false (p ∷ ps) ≡ ok us
    → (IsBlank p × (used_points true ps ≡ ok us))
      ⊎ (IsUsed p × ((used_points false ps >>= λ used. ok (p ∷ used)) ≡ ok us))
unfolding used_points IsBlank IsUsed
point_step p ps us h = ground (arith, h)

used_points-Blank :
    (ps us : List RatePoint) → used_points true ps ≡ ok us → (us ≡ []) × Every IsBlank ps
unfolding used_points
used_points-Blank [] us h = (sym (ok-injective h), every_none)
used_points-Blank (p ∷ ps) us h =
    let (blank, later) = padding_step p ps us h in
    let (e, blanks) = used_points-Blank ps us later in (e, every_next blank blanks)

record Split (ps us : List RatePoint) : Type 0 where
  padding : List RatePoint
  points_are : ps ≡ us ++ padding
  in_use : Every IsUsed us
  blank : Every IsBlank padding

used_points-Split : (ps us : List RatePoint) → used_points false ps ≡ ok us → Split ps us
unfolding used_points
used_points-Split [] us h =
    subst (Split []) (ok-injective h)
      (record { padding = []; points_are = refl; in_use = every_none; blank = every_none })
used_points-Split (p ∷ ps) us h = elim (point_step p ps us h) [
  | inl (blank, later) ↦
      let (e, blanks) = used_points-Blank ps us later in
      subst (Split (p ∷ ps)) (sym e) (record {
        padding = p ∷ ps;
        points_are = refl;
        in_use = every_none;
        blank = every_next blank blanks;
      })
  | inr (in_use, later) ↦
      let (rest, e, r) = >>=-eq-ok (used_points false ps) _ later in
      let v = used_points-Split ps rest e in
      subst (Split (p ∷ ps)) (ok-injective r) (record {
        padding = v.padding;
        points_are = λ i. p ∷ v.points_are i;
        in_use = every_next in_use v.in_use;
        blank = v.blank;
      })
]

blanks_used : (ps : List RatePoint) → Every IsBlank ps → used_points true ps ≡ ok []
unfolding used_points IsBlank
blanks_used [] every_none = refl
blanks_used (p ∷ ps) (every_next (u, r) bs) = ground (arith, blanks_used ps bs, u, r)

blanks_only : (ps : List RatePoint) → Every IsBlank ps → used_points false ps ≡ ok []
unfolding used_points IsBlank
blanks_only [] every_none = refl
blanks_only (p ∷ ps) (every_next (u, r) bs) = ground (arith, blanks_used ps bs, u, r)

used_points-append :
    (us ps : List RatePoint)
    → Every IsUsed us
    → Every IsBlank ps
    → used_points false (us ++ ps) ≡ ok us
unfolding used_points IsUsed
used_points-append [] ps every_none bs = blanks_only ps bs
used_points-append (u ∷ us) ps (every_next in_use all) bs =
    ground (arith, used_points-append us ps all bs, in_use)

neighbours :
    (p q : RatePoint) (ps : List RatePoint)
    → check_ascending (p ∷ q ∷ ps) ≡ ok tt
    → Below p q × (check_ascending (q ∷ ps) ≡ ok tt)
unfolding check_ascending Below
neighbours p q ps h = ground (arith, h)

Below-trans : (a b c : RatePoint) → Below a b → Below b c → Below a c
unfolding Below
Below-trans a b c (h, k) (h', k') = (omega arith, omega arith)

check_ascending-Ascending : (ps : List RatePoint) → check_ascending ps ≡ ok tt → Ascending ps
check_ascending-Ascending [] h = ascending_none
check_ascending-Ascending (p ∷ []) h = ascending_next every_none ascending_none
check_ascending-Ascending (p ∷ q ∷ ps) h =
    let (below, later) = neighbours p q ps h in
    elim (check_ascending-Ascending (q ∷ ps) later) [
      | ascending_next above rest ↦
          ascending_next (every_next below (Every-map (λ x b. Below-trans p q x below b) above))
            (ascending_next above rest)
    ]

Ascending-check_ascending : (ps : List RatePoint) → Ascending ps → check_ascending ps ≡ ok tt
unfolding check_ascending Below
Ascending-check_ascending [] h = refl
Ascending-check_ascending (p ∷ []) h = refl
Ascending-check_ascending (p ∷ q ∷ ps) (ascending_next (every_next (lower, flatter) above) rest) =
    ground (arith, Ascending-check_ascending (q ∷ ps) rest, lower, flatter)

all_between-Every :
    (lowest highest : ℕ) (ps : List RatePoint)
    → (all_between lowest highest ps ≡ true) ↔ Every (Between lowest highest) ps
unfolding all_between Between
all_between-Every lowest highest [] = ((λ h. every_none), (λ h. refl))
all_between-Every lowest highest (p ∷ ps) = (
  (λ h.
      let (here, later) = first h in
      every_next here ((all_between-Every lowest highest ps).0 later)),
  (λ h. elim h [
    | every_next here later ↦ ground (arith, here, (all_between-Every lowest highest ps).1 later)
  ]),
)
  where
    first :
        all_between lowest highest (p ∷ ps) ≡ true
        → Between lowest highest p × (all_between lowest highest ps ≡ true)
    first h = ground (arith, h)

validated :
    (c : InterestRateConfig)
    → validate_seven_point c ≡ ok tt
    → (us : List RatePoint) × (used_points false c.points ≡ ok us)
      × (check_ascending us ≡ ok tt)
      × (c.zero_util_rate ≤ c.hundred_util_rate)
      × (all_between c.zero_util_rate c.hundred_util_rate us ≡ true)
unfolding validate_seven_point
validated c h =
    let (us, e, h1) = >>=-eq-ok (used_points false c.points) _ h in
    let (asc, rising, between) = rest us h1 in (us, e, asc, rising, between)
  where
    rest :
        (us : List RatePoint)
        → (check_ascending us
            >> (check (leb c.zero_util_rate c.hundred_util_rate) invalid_config
                >> check (all_between c.zero_util_rate c.hundred_util_rate us) invalid_config))
          ≡ ok tt
        → (check_ascending us ≡ ok tt)
          × (c.zero_util_rate ≤ c.hundred_util_rate)
          × (all_between c.zero_util_rate c.hundred_util_rate us ≡ true)
    rest us k = ground (arith, k)

sound : (c : InterestRateConfig) → validate_seven_point c ≡ ok tt → Sound c
sound c h =
    let (us, e, asc, rising, between) = validated c h in
    let v = used_points-Split c.points us e in
    record {
      used = us;
      padding = v.padding;
      points_are = v.points_are;
      in_use = v.in_use;
      blank = v.blank;
      ascending = check_ascending-Ascending us asc;
      rising = rising;
      between = (all_between-Every c.zero_util_rate c.hundred_util_rate us).0 between;
    }

complete : (c : InterestRateConfig) → Sound c → validate_seven_point c ≡ ok tt
unfolding validate_seven_point
complete c v =
    rw (v.points_are, used_points-append v.used v.padding v.in_use v.blank)
      (ground (
        arith,
        Ascending-check_ascending v.used v.ascending,
        v.rising,
        (all_between-Every c.zero_util_rate c.hundred_util_rate v.used).1 v.between,
      ))

-- `validate_seven_point` accepts a configuration exactly when its points are points in use, each
-- below all later ones in utilization and not above them in rate, followed by blank ones, and all
-- rates lie between those at zero and at full utilization.
pub validate_seven_point_iff : (c : InterestRateConfig) → (validate_seven_point c ≡ ok tt) ↔ Sound c
validate_seven_point_iff c = (sound c, complete c)
