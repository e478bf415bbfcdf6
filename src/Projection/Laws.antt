-- ===== src/Projection/Laws.antt =====
-- What an approval hash depends on.
use mathlib.Core.List.{Permᴰ}
use wanfw.Common.{
  String, ◌≡◌, refl, ap, ◌↔◌, ◌⊎◌, true, false, eq_iff, [], arith, TotalOrder, sort-eq_iff,
  text_order, nat_order, text_le_total, text_le_trans, text_le_antisymm, filter, or_else, map,
}
use wanfw.Spec.{ContainerSpec}
use wanfw.Json.{canonical_json_stringify}
use wanfw.Projection.{
  projection_json, BindMount, PowerfulProjection, mount_le, build_powerful_projection,
  projection_to_canonical_json, compute_powerful_projection_hash, projection_input_for, bind_mount,
  is_bind, host_mode,
}

mount_le_total : (a b : BindMount) → (mount_le a b ≡ true) ⊎ (mount_le b a ≡ true)
mount_le_total a b = ground (
  arith,
  eq_iff a.source b.source,
  eq_iff b.source a.source,
  eq_iff a.target b.target,
  eq_iff b.target a.target,
  text_le_total a.source b.source,
  text_le_total a.target b.target,
)

mount_le_antisymm : (a b : BindMount) → mount_le a b ≡ true → mount_le b a ≡ true → a ≡ b
mount_le_antisymm a b h k = ground (
  arith,
  eq_iff a.source b.source,
  eq_iff b.source a.source,
  eq_iff a.target b.target,
  eq_iff b.target a.target,
  text_le_antisymm a.source b.source,
  text_le_antisymm a.target b.target,
)

mount_le_trans :
    (a b c : BindMount) → mount_le a b ≡ true → mount_le b c ≡ true → mount_le a c ≡ true
mount_le_trans a b c h k = ground (
  arith,
  eq_iff a.source b.source,
  eq_iff b.source c.source,
  eq_iff a.source c.source,
  eq_iff a.target b.target,
  eq_iff b.target c.target,
  eq_iff a.target c.target,
  text_le_trans a.source b.source c.source,
  text_le_antisymm a.source b.source,
  text_le_trans a.target b.target c.target,
  text_le_antisymm a.target b.target,
)

abbrev mount_order : TotalOrder BindMount
mount_order = record {
  le = mount_le;
  total = mount_le_total;
  le_trans = mount_le_trans;
  antisymm = mount_le_antisymm;
}

-- The same powerful fields, where the order of an array says nothing.
pub record SamePowers (a b : PowerfulProjection) : Type 0 where
  pub service_id : a.service_id ≡ b.service_id
  pub image : a.image ≡ b.image
  pub mounts : Permᴰ a.mounts b.mounts
  pub devices : Permᴰ a.devices b.devices
  pub network_mode : a.network_mode ≡ b.network_mode
  pub privileged : a.privileged ≡ b.privileged
  pub cap_add : Permᴰ a.cap_add b.cap_add
  pub published_ports : Permᴰ a.published_ports b.published_ports

build_of_SamePowers :
    {a b : PowerfulProjection}
    → SamePowers a b
    → build_powerful_projection a ≡ build_powerful_projection b
unfolding build_powerful_projection
build_of_SamePowers s = λ i. record {
  service_id = s.service_id i;
  image = s.image i;
  mounts = (sort-eq_iff mount_order _ _).1 s.mounts i;
  devices = (sort-eq_iff text_order _ _).1 s.devices i;
  network_mode = s.network_mode i;
  privileged = s.privileged i;
  cap_add = (sort-eq_iff text_order _ _).1 s.cap_add i;
  published_ports = (sort-eq_iff nat_order _ _).1 s.published_ports i;
}

SamePowers-of_build :
    (a b : PowerfulProjection)
    → build_powerful_projection a ≡ build_powerful_projection b
    → SamePowers a b
unfolding build_powerful_projection
SamePowers-of_build a b e = record {
  service_id = ap (λ (p : PowerfulProjection). p.service_id) e;
  image = ap (λ (p : PowerfulProjection). p.image) e;
  mounts = (sort-eq_iff mount_order _ _).0 (ap (λ (p : PowerfulProjection). p.mounts) e);
  devices = (sort-eq_iff text_order _ _).0 (ap (λ (p : PowerfulProjection). p.devices) e);
  network_mode = ap (λ (p : PowerfulProjection). p.network_mode) e;
  privileged = ap (λ (p : PowerfulProjection). p.privileged) e;
  cap_add = (sort-eq_iff text_order _ _).0 (ap (λ (p : PowerfulProjection). p.cap_add) e);
  published_ports =
      (sort-eq_iff nat_order _ _).0 (ap (λ (p : PowerfulProjection). p.published_ports) e);
}

-- Two inputs have one normalised projection exactly if they agree in every powerful field, the arrays
-- up to their order.
pub build_powerful_projection-eq_iff :
    (a b : PowerfulProjection)
    → (build_powerful_projection a ≡ build_powerful_projection b) ↔ SamePowers a b
build_powerful_projection-eq_iff a b = (SamePowers-of_build a b, λ s. build_of_SamePowers s)

-- Two specifications of one service that differ at most in baseline fields (command, environment,
-- named volumes, networks, labels, resources, restart policy) and in the order of the powerful arrays.
pub record DifferInBaseline (s t : ContainerSpec) : Type 0 where
  pub image : s.image ≡ t.image
  pub binds :
      Permᴰ
        (map bind_mount (filter is_bind (or_else s.mounts [])))
        (map bind_mount (filter is_bind (or_else t.mounts [])))
  pub devices : Permᴰ (or_else s.devices []) (or_else t.devices [])
  pub host : host_mode s.network_mode ≡ host_mode t.network_mode
  pub privileged : or_else s.privileged false ≡ or_else t.privileged false
  pub cap_add : Permᴰ (or_else s.cap_add []) (or_else t.cap_add [])
  pub ports : Permᴰ (or_else s.ports []) (or_else t.ports [])

SamePowers-of_DifferInBaseline :
    (service_id : String) (s t : ContainerSpec)
    → DifferInBaseline s t
    → SamePowers (projection_input_for service_id s) (projection_input_for service_id t)
unfolding projection_input_for
SamePowers-of_DifferInBaseline service_id s t d = record {
  service_id = refl;
  image = d.image;
  mounts = d.binds;
  devices = d.devices;
  network_mode = d.host;
  privileged = d.privileged;
  cap_add = d.cap_add;
  published_ports = d.ports;
}

-- An edit of baseline fields, or a reordering of arrays, keeps the approval hash of a service, so that
-- it needs no new approval.
pub hash_ignores_baseline :
    (sha256 : String → String) (service_id : String) (s t : ContainerSpec)
    → DifferInBaseline s t
    → compute_powerful_projection_hash sha256 (projection_input_for service_id s)
      ≡ compute_powerful_projection_hash sha256 (projection_input_for service_id t)
unfolding compute_powerful_projection_hash projection_to_canonical_json
hash_ignores_baseline sha256 service_id s t d =
    ap (λ p. sha256 (canonical_json_stringify (projection_json p)))
      (build_of_SamePowers (SamePowers-of_DifferInBaseline service_id s t d))
