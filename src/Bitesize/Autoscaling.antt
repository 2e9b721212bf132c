-- ===== src/Bitesize/Autoscaling.antt =====
-- `validHPA` of pkg/bitesize/validation.go. The fields come in the order of the struct; of an error
-- only its kind is kept, and the largest number of replicas is a parameter of the process.
use environment_operator.Prelude.{
  codes, ◌==◌, ==_iff, Bool, false, not, ◌&&◌, Option, none, some, ℤ, pos, negsuc, nonzero, gtb,
  ◌≤ℤ◌, ◌≡◌, refl, ◌⊎◌, inl, inr, arith, Bool-cases, if◌then◌else◌,
}
use environment_operator.Bitesize.Types.{HorizontalPodAutoscaler, Metric}

pub data HpaError : Type 0 where
  replicas low_utilization high_utilization custom_utilization : HpaError

unfoldable pub too_many : ℤ → ℤ → Bool
too_many max n = nonzero n && gtb n max

unfoldable pub valid_metric : Metric → Option HpaError
valid_metric m =
    let set = nonzero m.target_average_utilization in
    if set && gtb (pos 75) m.target_average_utilization
    then some low_utilization
    else if set && gtb m.target_average_utilization (pos 100)
    then some high_utilization
    else if not (m.name == codes "cpu") && (not (m.name == codes "memory") && set)
    then some custom_utilization
    else none

unfoldable pub valid_hpa : ℤ → HorizontalPodAutoscaler → Option HpaError
valid_hpa max h =
    if too_many max h.min_replicas
    then some replicas
    else if too_many max h.max_replicas
    then some replicas
    else valid_metric h.metric

is_zero : (n : ℤ) → nonzero n ≡ false → n ≡ pos 0
is_zero (pos n) h = ground arith
is_zero (negsuc n) h = cc

pub at_most : (a b : ℤ) → gtb a b ≡ false → a ≤ℤ b
at_most (pos a) (pos b) h = ground arith
at_most (pos a) (negsuc b) h = cc
at_most (negsuc a) (pos b) h = tt
at_most (negsuc a) (negsuc b) h = ground arith

pub not_above : (a b : ℤ) → a ≤ℤ b → gtb a b ≡ false
not_above (pos a) (pos b) h = ground arith
not_above (pos a) (negsuc b) h = elim h [ ]
not_above (negsuc a) (pos b) h = refl
not_above (negsuc a) (negsuc b) h = ground arith

-- The number is zero, which stands for none given, or at most the limit.
abbrev pub IsAllowed : ℤ → ℤ → Type 0
IsAllowed max n = (n ≡ pos 0) ⊎ (n ≤ℤ max)

too_many-IsAllowed : (max n : ℤ) → too_many max n ≡ false → IsAllowed max n
unfolding too_many
too_many-IsAllowed max n h = elim (Bool-cases (nonzero n)) [
  | inr z ↦ inl (is_zero n z)
  | inl z ↦ inr (at_most n max (rw z at h))
]

-- No utilization, or one from 75 to 100 of the processor or the memory.
abbrev pub IsTarget : Metric → Type 0
IsTarget m =
    (m.target_average_utilization ≡ pos 0)
    ⊎ ((pos 75 ≤ℤ m.target_average_utilization)
        × (m.target_average_utilization ≤ℤ pos 100)
        × ((m.name ≡ codes "cpu") ⊎ (m.name ≡ codes "memory")))

valid_metric-IsTarget : (m : Metric) → valid_metric m ≡ none → IsTarget m
unfolding valid_metric
valid_metric-IsTarget m h = elim (Bool-cases (nonzero m.target_average_utilization)) [
  | inr z ↦ inl (is_zero m.target_average_utilization z)
  | inl z ↦ elim (Bool-cases (gtb (pos 75) m.target_average_utilization)) [
    | inl l ↦ cc (rw (z, l) at h)
    | inr l ↦ elim (Bool-cases (gtb m.target_average_utilization (pos 100))) [
      | inl g ↦ cc (rw (z, l, g) at h)
      | inr g ↦ inr (
        at_most (pos 75) m.target_average_utilization l,
        at_most m.target_average_utilization (pos 100) g,
        elim (Bool-cases (m.name == codes "cpu")) [
          | inl c ↦ inl ((==_iff m.name (codes "cpu")).0 c)
          | inr c ↦ elim (Bool-cases (m.name == codes "memory")) [
            | inl d ↦ inr ((==_iff m.name (codes "memory")).0 d)
            | inr d ↦ cc (rw (z, l, g, c, d) at h)
          ]
        ],
      )
    ]
  ]
]

-- An autoscaler that is accepted asks for at most the limit of replicas, as its least and as its
-- most number of them, and for no utilization or one from 75 to 100 of the processor or the memory.
pub valid_hpa-bounds :
    (max : ℤ) (h : HorizontalPodAutoscaler)
    → valid_hpa max h ≡ none
    → IsAllowed max h.min_replicas × IsAllowed max h.max_replicas × IsTarget h.metric
unfolding valid_hpa
valid_hpa-bounds max h e = elim (Bool-cases (too_many max h.min_replicas)) [
  | inl x ↦ cc (rw x at e)
  | inr x ↦ elim (Bool-cases (too_many max h.max_replicas)) [
    | inl y ↦ cc (rw (x, y) at e)
    | inr y ↦ (
      too_many-IsAllowed max h.min_replicas x,
      too_many-IsAllowed max h.max_replicas y,
      valid_metric-IsTarget h.metric (rw (x, y) at e),
    )
  ]
]
