-- ===== src/Ensure/Idempotent.antt =====
-- Ensuring an object twice changes nothing the second time.
use wanfw.Common.{
  ◌∙◌, subst, ◌≡◌, refl, ap, String, ℕ, Bool, true, false, ◌==◌, eq_iff, if◌then◌else◌, [], ◌∷◌,
  ◌++◌, Option, none, some, or_else, inl, inr, Bool-cases, Option-cases,
}
use wanfw.Spec.{ContainerSpec}
use wanfw.Pipeline.{lookup}
use wanfw.Docker.{
  Labels, DockerContainerInfo, Reply, returned, thrown, after, Done, DockerClient, DockerLaws,
  IsManaged,
}
use wanfw.Ensure.{
  StepResult, StepLabels, put, spread, service_label, core_label, compute_config_hash,
  container_labels, container_step, create_and_start, keep_running, ensure_found, ensure_container,
}

lookup-put_self : (k v : String) (ls : Labels) → lookup k (put k v ls) ≡ some v
lookup-put_self k v [] = rw ((eq_iff k k).1 refl) refl
lookup-put_self k v ((j, u) ∷ ls) = elim (Bool-cases (j == k)) [
  | inl e ↦ rw e (rw e refl)
  | inr e ↦ rw e (rw e (lookup-put_self k v ls))
]

lookup-put_ne :
    (k j v : String) (ls : Labels) → (j == k) ≡ false → lookup k (put j v ls) ≡ lookup k ls
lookup-put_ne k j v [] ne = rw ne refl
lookup-put_ne k j v ((i, u) ∷ ls) ne = elim (Bool-cases (i == j)) [
  | inl e ↦ let miss : (i == k) ≡ false = rw ((eq_iff i j).0 e) ne in rw e (rw miss refl)
  | inr e ↦
      rw e (ap (λ (o : Option String). if i == k then some u else o) (lookup-put_ne k j v ls ne))
]

-- A key that the later labels do not have keeps its value.
lookup-spread_absent :
    (k : String) (ls extra : Labels)
    → lookup k extra ≡ none
    → lookup k (spread ls extra) ≡ lookup k ls
lookup-spread_absent k ls [] h = refl
lookup-spread_absent k ls ((j, v) ∷ extra) h = elim (Bool-cases (j == k)) [
  | inl e ↦ cc (rw e at h)
  | inr e ↦ rw (lookup-spread_absent k (put j v ls) extra (rw e at h)) (lookup-put_ne k j v ls e)
]

lookup-spread_later :
    (k v : String) (ls pre rest : Labels)
    → ((b : Labels) → lookup k (spread b rest) ≡ some v)
    → lookup k (spread ls (pre ++ rest)) ≡ some v
lookup-spread_later k v ls [] rest h = h ls
lookup-spread_later k v ls ((j, u) ∷ pre) rest h = lookup-spread_later k v (put j u ls) pre rest h

core_keeps :
    (core : Bool) (own : Labels)
    → lookup "wanfw.confighash" own ≡ none
    → lookup "wanfw.confighash" (core_label core ++ own) ≡ none
core_keeps true own h = h
core_keeps false own h = h

-- The labels of the caller do not set the label that the find calls filter on.
service_unmanaged :
    (o : Option String) (rest : Labels)
    → lookup "wanfw.managed" rest ≡ none
    → lookup "wanfw.managed" (service_label o ++ rest) ≡ none
service_unmanaged none rest h = h
service_unmanaged (some x) rest h = elim (Bool-cases (x == "")) [ inl e ↦ rw e h | inr e ↦ rw e h ]

core_unmanaged :
    (core : Bool) (own : Labels)
    → lookup "wanfw.managed" own ≡ none
    → lookup "wanfw.managed" (core_label core ++ own) ≡ none
core_unmanaged true own h = h
core_unmanaged false own h = h

-- The specification's own labels leave the two labels alone by which its container is found again.
abbrev pub KeepsLabels : ContainerSpec → Type 0
KeepsLabels spec =
    (lookup "wanfw.managed" (or_else spec.labels []) ≡ none)
    × (lookup "wanfw.confighash" (or_else spec.labels []) ≡ none)

reply_world : {W A : Type 0} → W → Reply W A → W
reply_world d (returned a w) = w
reply_world d (thrown m w) = w

world_same :
    {W A : Type 0} {a b : A} {w v : W} → Path (Reply W A) (returned a w) (returned b v) → w ≡ v
unfolding reply_world
world_same {w} h = ap (reply_world w) h

after_inv :
    {W A B : Type 0} (r : Reply W A) (next : A → W → Reply W B) (b : B) (w : W)
    → after r next ≡ returned b w
    → (a : A) × (v : W) × (r ≡ returned a v) × (next a v ≡ returned b w)
after_inv (returned a v) next b w h = (a, v, refl, h)
after_inv (thrown m v) next b w h = cc

module _ {W : Type 0} (sha256 trim : String → String) (number : String → ℕ)
    (docker : DockerClient W) where
  hash_label :
      (spec : ContainerSpec) (labels : StepLabels)
      → lookup "wanfw.confighash" (or_else spec.labels []) ≡ none
      → lookup "wanfw.confighash" (container_labels sha256 trim number docker spec labels)
        ≡ some (compute_config_hash sha256 spec)
  hash_label spec labels own =
      lookup-spread_later "wanfw.confighash" (compute_config_hash sha256 spec)
        (("wanfw.managed", "true") ∷ []) (service_label labels.service) _
        (λ b.
          lookup-spread_absent "wanfw.confighash"
            (put "wanfw.confighash" _ (put "wanfw.plan" labels.plan b))
            (core_label labels.core ++ or_else spec.labels [])
            (core_keeps labels.core (or_else spec.labels []) own)
          ∙ lookup-put_self "wanfw.confighash" (compute_config_hash sha256 spec)
              (put "wanfw.plan" labels.plan b))

  IsManaged-label :
      (spec : ContainerSpec) (labels : StepLabels)
      → lookup "wanfw.managed" (or_else spec.labels []) ≡ none
      → IsManaged (container_labels sha256 trim number docker spec labels)
  IsManaged-label spec labels own =
      let after_core : Labels = core_label labels.core ++ or_else spec.labels [] in
      let after_service : Labels =
        ("wanfw.plan", labels.plan)
        ∷ ("wanfw.confighash", compute_config_hash sha256 spec)
        ∷ after_core in
      lookup-spread_absent "wanfw.managed" (("wanfw.managed", "true") ∷ [])
        (service_label labels.service ++ after_service)
        (service_unmanaged labels.service after_service
          (core_unmanaged labels.core (or_else spec.labels []) own))

  -- The container runs and carries the hash of the specification.
  Converged : String → ContainerSpec → W → Type 0
  Converged name spec w =
      (i : DockerContainerInfo) × (docker.find_container name w ≡ some i)
      × (lookup "wanfw.confighash" i.labels ≡ some (compute_config_hash sha256 spec))
      × (i.state ≡ "running")

  unchanged_of_Converged :
      (name : String) (spec : ContainerSpec) (labels : StepLabels) (w : W)
      → Converged name spec w
      → ensure_container sha256 trim number docker name spec labels w
        ≡ returned (container_step sha256 trim number docker name false "unchanged") w
  unfolding Converged ensure_container
  unchanged_of_Converged name spec labels w (i, f, h, r) = rw f (
      rw h (
        rw ((eq_iff (compute_config_hash sha256 spec) (compute_config_hash sha256 spec)).1 refl)
          (rw r refl)))

  module _ (laws : DockerLaws W docker) where
    Converged-of_start :
        (name id : String) (spec : ContainerSpec) (w w' : W) (d : Done) (i : DockerContainerInfo)
        → docker.find_container name w ≡ some i
        → i.id ≡ id
        → lookup "wanfw.confighash" i.labels ≡ some (compute_config_hash sha256 spec)
        → docker.start_container id w ≡ returned d w'
        → Converged name spec w'
    unfolding Converged
    Converged-of_start name id spec w w' d i f same h s =
        let (j, g, _, l, r) = laws.container_started name id w w' d i f same s in (j, g, rw l h, r)

    Converged-of_create :
        (name detail : String) (spec : ContainerSpec) (labels : StepLabels) (w w' : W)
        (r : StepResult)
        → KeepsLabels spec
        → create_and_start sha256 trim number docker name spec labels detail w ≡ returned r w'
        → Converged name spec w'
    Converged-of_create name detail spec labels w w' r own h =
        let (id, w1, c, h1) = after_inv (docker.create_container _ w) _ r w' h in
        let (d, w2, s, h2) = after_inv (docker.start_container id w1) _ r w' h1 in
        let (i, f, same, l) =
          laws.container_created _ w w1 id (IsManaged-label spec labels own.0) c in
        subst (Converged name spec) (world_same h2) (
          Converged-of_start name id spec w1 w2 d i f same
            (l "wanfw.confighash" (compute_config_hash sha256 spec) (hash_label spec labels own.1))
            s)

    Converged-of_recreate :
        (name id : String) (spec : ContainerSpec) (labels : StepLabels) (w w' : W) (r : StepResult)
        → KeepsLabels spec
        → after
            (docker.remove_container id w)
            (λ done. create_and_start sha256 trim number docker name spec labels "recreated")
          ≡ returned r w'
        → Converged name spec w'
    Converged-of_recreate name id spec labels w w' r own h =
        let (_, v, _, h1) = after_inv (docker.remove_container id w) _ r w' h in
        Converged-of_create name "recreated" spec labels v w' r own h1

    Converged-of_keep :
        (name : String) (spec : ContainerSpec) (w w' : W) (r : StepResult) (i : DockerContainerInfo)
        → docker.find_container name w ≡ some i
        → lookup "wanfw.confighash" i.labels ≡ some (compute_config_hash sha256 spec)
        → keep_running sha256 trim number docker name i w ≡ returned r w'
        → Converged name spec w'
    unfolding Converged
    Converged-of_keep name spec w w' r i f l h = elim (Bool-cases (i.state == "running")) [
      | inl run ↦
          subst (Converged name spec) (world_same (rw run at h))
            (i, f, l, (eq_iff i.state "running").0 run)
      | inr stopped ↦
          let (d, v, s, h1) = after_inv (docker.start_container i.id w) _ r w' (rw stopped at h) in
          subst (Converged name spec) (world_same h1)
            (Converged-of_start name i.id spec w v d i f refl l s)
    ]

    Converged-of_found :
        (name : String) (spec : ContainerSpec) (labels : StepLabels) (w w' : W) (r : StepResult)
        (found : Option DockerContainerInfo)
        → docker.find_container name w ≡ found
        → KeepsLabels spec
        → ensure_found sha256 trim number docker name spec labels found w ≡ returned r w'
        → Converged name spec w'
    Converged-of_found name spec labels w w' r none f own h =
        Converged-of_create name "created" spec labels w w' r own h
    Converged-of_found name spec labels w w' r (some i) f own h =
        elim (Option-cases (lookup "wanfw.confighash" i.labels)) [
          | inl e ↦ Converged-of_recreate name i.id spec labels w w' r own (rw e at h)
          | inr (hash, e) ↦ elim (Bool-cases (hash == compute_config_hash sha256 spec)) [
            | inl same ↦
                Converged-of_keep name spec w w' r i f
                  (e ∙ ap some ((eq_iff hash (compute_config_hash sha256 spec)).0 same))
                  (rw same at (rw e at h))
            | inr differs ↦
                Converged-of_recreate name i.id spec labels w w' r own (rw differs at (rw e at h))
          ]
        ]

    -- Once `ensureContainer` has returned, ensuring the same specification again, under any plan, finds
    -- the container as it is and makes no call that changes the daemon, on any daemon that keeps to its
    -- documentation; the specification's own labels must set neither wanfw.managed nor
    -- wanfw.confighash.
    pub ensure_container-settles :
        (name : String) (spec : ContainerSpec) (labels later : StepLabels) (w w' : W)
        (r : StepResult)
        → KeepsLabels spec
        → ensure_container sha256 trim number docker name spec labels w ≡ returned r w'
        → ensure_container sha256 trim number docker name spec later w'
          ≡ returned (container_step sha256 trim number docker name false "unchanged") w'
    unfolding ensure_container
    ensure_container-settles name spec labels later w w' r own h =
        unchanged_of_Converged name spec later w'
          (Converged-of_found name spec labels w w' r (docker.find_container name w) refl own h)
