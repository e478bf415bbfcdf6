-- ===== src/Tests/Status.antt =====
-- Tests of the garbage collection and the status documents.
use wanfw.Common.{String, ◌≡◌, ◌↔◌, refl, List, [], ◌∷◌, none, some, In}
use wanfw.Pipeline.{StageError}
use wanfw.Docker.{DockerVolumeInfo, DockerContainerInfo}
use wanfw.Observe.{remove_volume, gc_calls, live, status_doc}
use wanfw.Observe.Collected.{Collects, gc_calls_iff}

abbrev data_volume : String → String → DockerVolumeInfo
data_volume name remove = record {
  name = name;
  labels =
      ("wanfw.managed", "true")
      ∷ ("wanfw.service", "old")
      ∷ ("wanfw.removeVolumesOnDelete", remove)
      ∷ [];
}

abbrev volumes : List DockerVolumeInfo
volumes = data_volume "wanfw_old_data" "false" ∷ data_volume "wanfw_old_cache" "true" ∷ []

abbrev web_container : DockerContainerInfo
web_container = record {
  id = "ctr-1";
  name = "wanfw_web";
  labels = ("wanfw.service", "web") ∷ [];
  networks = [];
  state = "running";
}

only_opted_in :
    gc_calls ("web" ∷ []) (web_container ∷ []) [] volumes ≡ remove_volume "wanfw_old_cache" ∷ []
unfolding gc_calls
only_opted_in = refl

gc_calls_iff_example :
    In (remove_volume "wanfw_old_data") (gc_calls ("web" ∷ []) (web_container ∷ []) [] volumes)
    ↔ Collects ("web" ∷ []) (web_container ∷ []) [] volumes (remove_volume "wanfw_old_data")
gc_calls_iff_example =
    gc_calls_iff ("web" ∷ []) (web_container ∷ []) [] volumes (remove_volume "wanfw_old_data")

abbrev lapsing : StageError
lapsing = record { stage = "renewal"; plugin = none; message = "fewer than 7 days remaining" }

web_live :
    (status_doc
      (web_container ∷ [])
      []
      none
      none
      (some lapsing)
      "web"
      (some "web.example.org")).phase
    ≡ live
unfolding status_doc
web_live = refl
