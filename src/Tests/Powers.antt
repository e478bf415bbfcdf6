-- ===== src/Tests/Powers.antt =====
-- Tests of the scope matching, the powerful projection and the tiers.
use mathlib.Core.List.{Permᴰ}
use wanfw.Common.{
  starts_with, split, String, ◌≡◌, ◌↔◌, refl, true, false, List, [], ◌∷◌, none, some,
}
use wanfw.Scope.{canonicalize_path, match_path_glob}
use wanfw.Scope.Glob.{Covers, match_path_glob_iff}
use wanfw.Projection.{
  PowerfulProjection, build_powerful_projection, compute_powerful_projection_hash,
  projection_input_for,
}
use wanfw.Projection.Laws.{
  SamePowers, build_powerful_projection-eq_iff, DifferInBaseline, hash_ignores_baseline,
}
use wanfw.Validate.{powerful, validate_container_spec}
use wanfw.Validate.Tier.{SetsPowerful, tier-powerful_iff}
use wanfw.Tests.{same_text, camera, quiet_camera}

canonical_lib : canonicalize_path "//var///lib/" ≡ some "/var/lib"
unfolding canonicalize_path starts_with split
canonical_lib = refl

match_path_glob_iff_example :
    (match_path_glob "/dev/dri/*" "/dev/sda" ≡ true) ↔ Covers "/dev/dri/*" "/dev/sda"
match_path_glob_iff_example = match_path_glob_iff "/dev/dri/*" "/dev/sda"

abbrev with_devices : List String → PowerfulProjection
with_devices devices = record {
  service_id = "cam";
  image = "camera:1";
  mounts = [];
  devices = devices;
  network_mode = none;
  privileged = false;
  cap_add = [];
  published_ports = [];
}

build_powerful_projection-eq_iff_example :
    (build_powerful_projection (with_devices ("/dev/a" ∷ "/dev/b" ∷ []))
      ≡ build_powerful_projection (with_devices ("/dev/b" ∷ "/dev/a" ∷ [])))
    ↔ SamePowers (with_devices ("/dev/a" ∷ "/dev/b" ∷ [])) (with_devices ("/dev/b" ∷ "/dev/a" ∷ []))
build_powerful_projection-eq_iff_example =
    build_powerful_projection-eq_iff (with_devices ("/dev/a" ∷ "/dev/b" ∷ []))
      (with_devices ("/dev/b" ∷ "/dev/a" ∷ []))

camera_baseline : DifferInBaseline camera quiet_camera
camera_baseline = record {
  image = refl;
  binds = Permᴰ.nil;
  devices = Permᴰ.nil;
  host = refl;
  privileged = refl;
  cap_add = Permᴰ.nil;
  ports = Permᴰ.nil;
}

restart_policy :
    compute_powerful_projection_hash same_text (projection_input_for "cam" camera)
    ≡ compute_powerful_projection_hash same_text (projection_input_for "cam" quiet_camera)
restart_policy = hash_ignores_baseline same_text "cam" camera quiet_camera camera_baseline

tier-powerful_iff_example :
    ((validate_container_spec same_text "cam" camera []).tier ≡ powerful) ↔ SetsPowerful camera
tier-powerful_iff_example = tier-powerful_iff same_text "cam" camera []
