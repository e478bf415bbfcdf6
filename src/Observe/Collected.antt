-- ===== src/Observe/Collected.antt =====
-- What the garbage collection removes.
use wanfw.Common.{
  not, subst, ◌∙◌, Option-cases, ◌==◌, eq_iff, String, ◌≡◌, ◌≢◌, ◌↔◌, inl, inr, refl, ap, Bool,
  true, false, &&-eq-true, List, [], ◌∷◌, some, In, In-append, In-append_left, In-append_right,
  Bool-cases,
}
use wanfw.FieldChecks.{each}
use wanfw.Pipeline.{lookup}
use wanfw.Scope.{includes}
use wanfw.Scope.Names.{includes_iff}
use wanfw.Docker.{Labels, DockerNetworkInfo, DockerVolumeInfo, DockerContainerInfo}
use wanfw.Observe.{
  GcCall, remove_container, remove_network, remove_volume, is_orphan, opted_in, call_if,
  container_calls, network_calls, volume_calls, gc_calls, named,
}

In-each :
    {A B : Type 0} (f : A → List B) (b : B) (xs : List A)
    → In b (each f xs)
    → (a : A) × In a xs × In b (f a)
In-each f b [] m = elim m [ ]
In-each f b (x ∷ xs) m = elim (In-append b (f x) (each f xs) m) [
  | inl here ↦ (x, inl refl, here)
  | inr later ↦ let (a, i, k) = In-each f b xs later in (a, inr i, k)
]

each-In :
    {A B : Type 0} (f : A → List B) (b : B) (a : A) (xs : List A)
    → In a xs
    → In b (f a)
    → In b (each f xs)
each-In f b a [] i k = elim i [ ]
each-In f b a (x ∷ xs) (inl same) k = In-append_left b (f x) (each f xs) (rw same k)
each-In f b a (x ∷ xs) (inr i) k = In-append_right b (f x) (each f xs) (each-In f b a xs i k)

In-call_if : (b : Bool) (c call : GcCall) → In call (call_if b c) → (b ≡ true) × (c ≡ call)
In-call_if true c call (inl e) = (refl, e)
In-call_if true c call (inr m) = elim m [ ]
In-call_if false c call m = elim m [ ]

call_if-In : (b : Bool) (call : GcCall) → b ≡ true → In call (call_if b call)
call_if-In b call h = rw h (inl refl)

-- The labels name a service that is not desired.
pub IsOrphan : List String → Labels → Type 0
IsOrphan desired labels =
    (s : String) × (lookup "wanfw.service" labels ≡ some s) × (s ≢ "") × (In s desired → ⊥)

differs : (a b : String) → a ≢ b → (a == b) ≡ false
differs a b ne = elim (Bool-cases (a == b)) [ inl e ↦ absurd (ne ((eq_iff a b).0 e)) | inr e ↦ e ]

not_included : (xs : List String) (s : String) → (In s xs → ⊥) → includes xs s ≡ false
not_included xs s h = elim (Bool-cases (includes xs s)) [
  | inl e ↦ absurd (h ((includes_iff xs s).0 e))
  | inr e ↦ e
]

is_orphan_iff :
    (desired : List String) (labels : Labels)
    → (is_orphan desired labels ≡ true) ↔ IsOrphan desired labels
unfolding is_orphan IsOrphan
is_orphan_iff desired labels = (
  (λ h. elim (Option-cases (lookup "wanfw.service" labels)) [
    | inl e ↦ cc (rw e at h)
    | inr (s, e) ↦
        let (named, out) = &&-eq-true (not (s == "")) (not (includes desired s)) (rw e at h) in
        (
          s,
          e,
          (λ blank. cc (named, (eq_iff s "").1 blank)),
          (λ m. cc (out, (includes_iff desired s).1 m)),
        )
  ]),
  (λ (s, e, named, out). rw e (rw (differs s "" named) (rw (not_included desired s out) refl))),
)

opted_in_iff :
    (labels : Labels)
    → (opted_in labels ≡ true) ↔ (lookup "wanfw.removeVolumesOnDelete" labels ≡ some "true")
unfolding opted_in
opted_in_iff labels = (
  (λ h. elim (Option-cases (lookup "wanfw.removeVolumesOnDelete" labels)) [
    | inl e ↦ cc (rw e at h)
    | inr (s, e) ↦ e ∙ ap some ((eq_iff s "true").0 (rw e at h))
  ]),
  (λ e. rw e refl),
)

module _ (desired : List String) (containers : List DockerContainerInfo)
    (networks : List DockerNetworkInfo) (volumes : List DockerVolumeInfo) where
  -- What may be removed: orphaned containers and networks, and those orphaned volumes whose service
  -- asked for their removal.
  pub data Collects : GcCall → Type 0 where
    container :
        (c : DockerContainerInfo)
        → In c containers
        → IsOrphan desired c.labels
        → Collects (remove_container c.id)
    network :
        (n : DockerNetworkInfo)
        → In n networks
        → IsOrphan desired n.labels
        → Collects (remove_network n.id)
    volume :
        (v : DockerVolumeInfo)
        → In v volumes
        → IsOrphan desired v.labels
        → lookup "wanfw.removeVolumesOnDelete" v.labels ≡ some "true"
        → Collects (remove_volume v.name)

  Collects-gc_calls :
      (call : GcCall) → In call (gc_calls desired containers networks volumes) → Collects call
  unfolding gc_calls
  Collects-gc_calls call m = elim (In-append call (each (container_calls desired) containers) _ m) [
    | inl i ↦
        let (c, j, k) = In-each (container_calls desired) call containers i in
        let (o, same) = In-call_if _ _ call k in
        subst Collects same (container c j ((is_orphan_iff desired c.labels).0 o))
    | inr r ↦ elim (In-append call (each (network_calls desired) networks) _ r) [
      | inl i ↦
          let (n, j, k) = In-each (network_calls desired) call networks i in
          let (o, same) = In-call_if _ _ call k in
          subst Collects same (network n j ((is_orphan_iff desired n.labels).0 o))
      | inr i ↦
          let (v, j, k) = In-each (volume_calls desired) call volumes i in
          let (both, same) = In-call_if _ _ call k in
          let (o, p) = &&-eq-true _ _ both in
          subst Collects same
            (volume v j ((is_orphan_iff desired v.labels).0 o) ((opted_in_iff v.labels).0 p))
    ]
  ]

  gc_calls-Collects :
      (call : GcCall) → Collects call → In call (gc_calls desired containers networks volumes)
  unfolding gc_calls
  gc_calls-Collects _ (container c j o) =
      In-append_left _ (each (container_calls desired) containers) _ (
        each-In (container_calls desired) _ c containers j
          (call_if-In _ _ ((is_orphan_iff desired c.labels).1 o)))
  gc_calls-Collects _ (network n j o) =
      In-append_right _ (each (container_calls desired) containers) _ (
        In-append_left _ (each (network_calls desired) networks) _ (
          each-In (network_calls desired) _ n networks j
            (call_if-In _ _ ((is_orphan_iff desired n.labels).1 o))))
  gc_calls-Collects _ (volume v j o p) =
      In-append_right _ (each (container_calls desired) containers) _ (
        In-append_right _ (each (network_calls desired) networks) _ (
          each-In (volume_calls desired) _ v volumes j (
            call_if-In _ _
              (rw ((is_orphan_iff desired v.labels).1 o) ((opted_in_iff v.labels).1 p)))))

  -- The garbage collection removes exactly the listed containers and networks whose service label names
  -- a service that is not desired, and of the volumes those that are labelled for removal as well.
  pub gc_calls_iff :
      (call : GcCall) → In call (gc_calls desired containers networks volumes) ↔ Collects call
  gc_calls_iff call = (Collects-gc_calls call, gc_calls-Collects call)
