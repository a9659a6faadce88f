-- ===== src/Pipeline/Order.antt =====
-- machine.go: the order in which a machine's stages run.
use proof_layer.Base.{
  ℕ, zero, suc, ◌-◌, ◌<◌, ◌≡◌, refl, sym, subst, Bool, true, false, not, ◌&&◌, ◌||◌, some, List, [],
  ◌∷◌, ◌==◌, String_eq, arith, get_elem?, set, take, length, every, nat_eq, and-eq_true, index_lt,
}
use proof_layer.Pipeline.Model.{StageStatus, Status_eq, StageResult}
use proof_layer.Pipeline.Machine.{is_settled, is_cleared, ready, mark, propagate_not_tested}

-- Not started, and never to be.
abbrev pub is_untouched : StageResult → Bool
is_untouched s = s.status == StageStatus.pending || s.status == StageStatus.not_tested

-- Before the cleanup, nothing runs or has run behind a stage that is not cleared; the cleanup runs
-- once every stage before it is settled.
abbrev pub is_ordered : Bool → Bool → List StageResult → Bool
is_ordered blocked busy [] = true
is_ordered blocked busy (s ∷ []) = not busy || is_untouched s
is_ordered blocked busy (s ∷ (t ∷ ss)) =
    (not blocked || is_untouched s)
    && is_ordered (blocked || not (is_cleared s)) (busy || not (is_settled s)) (t ∷ ss)

or_mono : (a a' c : Bool) → (a' ≡ true → a ≡ true) → (a' || c) ≡ true → (a || c) ≡ true
or_mono a a' c h = ground (arith, h)

is_ordered_mono :
    (blocked blocked' busy busy' : Bool) (ss : List StageResult)
    → (blocked' ≡ true → blocked ≡ true)
    → (busy' ≡ true → busy ≡ true)
    → is_ordered blocked busy ss ≡ true
    → is_ordered blocked' busy' ss ≡ true
is_ordered_mono blocked blocked' busy busy' [] b u o = refl
is_ordered_mono blocked blocked' busy busy' (s ∷ []) b u o = ground (arith, b, u)
is_ordered_mono blocked blocked' busy busy' (s ∷ (t ∷ ss)) b u o =
    let rest =
      is_ordered_mono (blocked || not (is_cleared s)) (blocked' || not (is_cleared s))
        (busy || not (is_settled s)) (busy' || not (is_settled s)) (t ∷ ss)
        (or_mono blocked blocked' _ b) (or_mono busy busy' _ u) in
    ground (arith, b, u, rest)

-- The stage at `i` may get the status of `s'`.
abbrev pub is_allowed : Bool → Bool → List StageResult → ℕ → StageResult → Bool
is_allowed blocked busy [] i s' = true
is_allowed blocked busy (s ∷ []) i s' = not busy || is_untouched s'
is_allowed blocked busy (s ∷ (t ∷ ss)) zero s' = not blocked || is_untouched s'
is_allowed blocked busy (s ∷ (t ∷ ss)) (suc i) s' =
    is_allowed (blocked || not (is_cleared s)) (busy || not (is_settled s)) (t ∷ ss) i s'

unsettled_blocks :
    (s : StageResult) (b : Bool) → is_settled s ≡ false → (b || not (is_cleared s)) ≡ true
unsettled_blocks s b h = ground (arith, h)

unsettled_busy :
    (s : StageResult) (b : Bool) → is_settled s ≡ false → (b || not (is_settled s)) ≡ true
unsettled_busy s b h = ground (arith, h)

and_intro : {a b : Bool} → a ≡ true → b ≡ true → (a && b) ≡ true
and_intro {a} {b} h k = ground (arith, h, k)

set-cons :
    (s : StageResult) (ss : List StageResult) (i : ℕ) (s' : StageResult)
    → (t : StageResult) × (ts : List StageResult) × (set (s ∷ ss) i s' ≡ t ∷ ts)
set-cons s ss zero s' = (s', ss, refl)
set-cons s ss (suc i) s' = (s, set ss i s', refl)

-- A stage that waits or is under way gets a status that it may have.
pub is_ordered-set :
    (blocked busy : Bool) (ss : List StageResult) (i : ℕ) (s s' : StageResult)
    → is_ordered blocked busy ss ≡ true
    → get_elem? ss i ≡ some s
    → is_settled s ≡ false
    → is_allowed blocked busy ss i s' ≡ true
    → is_ordered blocked busy (set ss i s') ≡ true
is_ordered-set blocked busy [] i s s' o found waits fits = refl
is_ordered-set blocked busy (x ∷ []) zero s s' o found waits fits = fits
is_ordered-set blocked busy (x ∷ []) (suc i) s s' o found waits fits = o
is_ordered-set blocked busy (x ∷ (y ∷ ss)) zero s s' o found waits fits =
    let same : x ≡ s = cc in
    let open_x = subst (λ z. is_settled z ≡ false) (sym same) waits in
    let rest =
      is_ordered_mono (blocked || not (is_cleared x)) (blocked || not (is_cleared s'))
        (busy || not (is_settled x)) (busy || not (is_settled s')) (y ∷ ss)
        (λ h. unsettled_blocks x blocked open_x) (λ h. unsettled_busy x busy open_x)
        (and-eq_true _ _ o).1 in
    and_intro fits rest
is_ordered-set blocked busy (x ∷ (y ∷ ss)) (suc i) s s' o found waits fits =
    let (t, ts, e) = set-cons y ss i s' in
    let (head, tail) = and-eq_true _ _ o in
    let rest =
      is_ordered-set (blocked || not (is_cleared x)) (busy || not (is_settled x)) (y ∷ ss) i s s'
        tail found waits fits in
    subst (λ l. is_ordered blocked busy (x ∷ l) ≡ true) (sym e)
      (and_intro head (
        subst
          (λ l. is_ordered (blocked || not (is_cleared x)) (busy || not (is_settled x)) l ≡ true) e
          rest))

-- A failure leaves the stages in order.
propagate-cons :
    (n : ℕ) (s : StageResult) (ss : List StageResult)
    → (t : StageResult) × (ts : List StageResult) × (propagate_not_tested n (s ∷ ss) ≡ t ∷ ts)
unfolding propagate_not_tested
propagate-cons n s [] = (s, [], refl)
propagate-cons zero s (t ∷ ss) = (mark s, propagate_not_tested zero (t ∷ ss), refl)
propagate-cons (suc n) s (t ∷ ss) = (s, propagate_not_tested n (t ∷ ss), refl)

is_ordered-front :
    (blocked busy : Bool) (s s' : StageResult) (ss : List StageResult) (n : ℕ) (t : StageResult)
    → (is_untouched s ≡ true → is_untouched s' ≡ true)
    → (not blocked || is_untouched s) ≡ true
    → is_ordered
        (blocked || not (is_cleared s'))
        (busy || not (is_settled s'))
        (propagate_not_tested n (t ∷ ss))
      ≡ true
    → is_ordered blocked busy (s' ∷ propagate_not_tested n (t ∷ ss)) ≡ true
is_ordered-front blocked busy s s' ss n t keeps front rest =
    let (u, us, e) = propagate-cons n t ss in
    subst (λ l. is_ordered blocked busy (s' ∷ l) ≡ true) (sym e)
      (and_intro (ground (arith, keeps, front)) (
        subst
          (λ l. is_ordered (blocked || not (is_cleared s')) (busy || not (is_settled s')) l ≡ true)
          e rest))

pub is_ordered-propagate :
    (blocked busy : Bool) (n : ℕ) (ss : List StageResult)
    → is_ordered blocked busy ss ≡ true
    → is_ordered blocked busy (propagate_not_tested n ss) ≡ true
unfolding propagate_not_tested
is_ordered-propagate blocked busy n [] o = o
is_ordered-propagate blocked busy n (s ∷ []) o = o
is_ordered-propagate blocked busy zero (s ∷ (t ∷ ss)) o =
    let (front, rest) = and-eq_true _ _ o in
    is_ordered-front blocked busy s (mark s) ss zero t (ground arith) front (
      is_ordered_mono (blocked || not (is_cleared s)) (blocked || not (is_cleared (mark s)))
        (busy || not (is_settled s)) (busy || not (is_settled (mark s)))
        (propagate_not_tested zero (t ∷ ss)) (ground arith) (ground arith)
        (is_ordered-propagate (blocked || not (is_cleared s)) (busy || not (is_settled s)) zero
          (t ∷ ss) rest))
is_ordered-propagate blocked busy (suc n) (s ∷ (t ∷ ss)) o =
    let (front, rest) = and-eq_true _ _ o in
    is_ordered-front blocked busy s s ss n t (λ h. h) front
      (is_ordered-propagate _ _ n (t ∷ ss) rest)

-- A stage that runs may get any status.
pub running-is_allowed :
    (blocked busy : Bool) (ss : List StageResult) (i : ℕ) (s s' : StageResult)
    → is_ordered blocked busy ss ≡ true
    → get_elem? ss i ≡ some s
    → is_untouched s ≡ false
    → is_allowed blocked busy ss i s' ≡ true
running-is_allowed blocked busy [] i s s' o found runs = refl
running-is_allowed blocked busy (x ∷ []) zero s s' o found runs =
    let same : x ≡ s = cc in ground (arith, subst (λ z. is_untouched z ≡ false) (sym same) runs, o)
running-is_allowed blocked busy (x ∷ []) (suc i) s s' o found runs = cc
running-is_allowed blocked busy (x ∷ (y ∷ ss)) zero s s' o found runs =
    let same : x ≡ s = cc in
    let front = (and-eq_true (not blocked || is_untouched x) _ o).0 in
    ground (arith, subst (λ z. is_untouched z ≡ false) (sym same) runs, front)
running-is_allowed blocked busy (x ∷ (y ∷ ss)) (suc i) s s' o found runs =
    running-is_allowed (blocked || not (is_cleared x)) (busy || not (is_settled x)) (y ∷ ss) i s s'
      (and-eq_true _ _ o).1 found runs

step_settled :
    (x : StageResult) (busy : Bool) (front : List StageResult)
    → (every is_settled (x ∷ front) ≡ true) × (busy ≡ false)
    → (every is_settled front ≡ true) × ((busy || not (is_settled x)) ≡ false)
step_settled x busy front (h, idle) =
    let (first, rest) = and-eq_true (is_settled x) _ h in (rest, ground (arith, first, idle))

step_cleared :
    (x : StageResult) (blocked : Bool) (front : List StageResult)
    → (every is_cleared (x ∷ front) ≡ true) × (blocked ≡ false)
    → (every is_cleared front ≡ true) × ((blocked || not (is_cleared x)) ≡ false)
step_cleared x blocked front (h, idle) =
    let (first, rest) = and-eq_true (is_cleared x) _ h in (rest, ground (arith, first, idle))

-- A stage that is ready may get any status.
ready_rest :
    (blocked busy : Bool) (ss : List StageResult) (i : ℕ) (s' : StageResult)
    → i < length ss
    → (nat_eq i (length ss - 1) ≡ true → (every is_settled (take i ss) ≡ true) × (busy ≡ false))
    → (nat_eq i (length ss - 1) ≡ false → (every is_cleared (take i ss) ≡ true) × (blocked ≡ false))
    → is_allowed blocked busy ss i s' ≡ true
ready_rest blocked busy [] i s' h l e = refl
ready_rest blocked busy (x ∷ []) i s' h l e =
    let idle = (l (ground (arith, h))).1 in ground (arith, idle)
ready_rest blocked busy (x ∷ (y ∷ ss)) zero s' h l e =
    let idle = (e (ground arith)).1 in ground (arith, idle)
ready_rest blocked busy (x ∷ (y ∷ ss)) (suc i) s' h l e =
    ready_rest (blocked || not (is_cleared x)) (busy || not (is_settled x)) (y ∷ ss) i s'
      (omega (arith, h)) (λ a. step_settled x busy (take i (y ∷ ss)) (l (ground (arith, a))))
      (λ a. step_cleared x blocked (take i (y ∷ ss)) (e (ground (arith, a))))

pub ready-is_allowed :
    (ss : List StageResult) (i : ℕ) (s s' : StageResult)
    → get_elem? ss i ≡ some s
    → ready ss i ≡ true
    → is_allowed false false ss i s' ≡ true
unfolding ready
ready-is_allowed ss i s s' found h =
    ready_rest false false ss i s' (index_lt ss i s found) (λ a. (rw a at h, refl))
      (λ a. (rw a at h, refl))
