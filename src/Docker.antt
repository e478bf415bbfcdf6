-- ===== src/Docker.antt =====
-- The interface to the Docker daemon (packages/orchestrator/src/execute/docker-client.ts), what the
-- code relies on of it, and the in-memory client (packages/orchestrator/src/execute/fake-docker-client.ts)
-- that meets it. A call that changes the daemon's state may throw; labels are the entries of an object.
pub mod Fake
use wanfw.Common.{
  In, ℕ, String, ◌≡◌, ◌≢◌, Bool, ◌==◌, List, [], ◌∷◌, Option, none, some, if◌then◌else◌,
}
use wanfw.Spec.{MountSpec}
use wanfw.Pipeline.{lookup}

abbrev pub Labels : Type 0
Labels = List (String × String)

pub record DockerNetworkInfo : Type 0 where
  pub id : String
  pub name : String
  pub labels : Labels

pub record DockerVolumeInfo : Type 0 where
  pub name : String
  pub labels : Labels

pub record DockerContainerInfo : Type 0 where
  pub id : String
  pub name : String
  pub labels : Labels
  pub networks : List String
  pub state : String

-- `cpus` is the text that the source passes through `Number`.
pub record CreateContainerOptions : Type 0 where
  pub name : String
  pub image : String
  pub cmd : Option (List String)
  pub entrypoint : Option (List String)
  pub env : Option Labels
  pub mounts : List MountSpec
  pub devices : Option (List String)
  pub network_mode : Option String
  pub ports : Option (List ℕ)
  pub cap_add : Option (List String)
  pub privileged : Option Bool
  pub security_opt : Option (List String)
  pub user : Option String
  pub read_only_rootfs : Option Bool
  pub memory : Option ℕ
  pub cpus : Option String
  pub labels : Labels
  pub restart_policy : Option String
  pub primary_network : Option String

pub record NetworkDriverOptions : Type 0 where
  pub driver : Option String
  pub parent : Option String
  pub subnet : Option String
  pub gateway : Option String

-- A call that returns, or throws with a message; the daemon's state is what the call leaves.
pub data Reply (W A : Type 0) : Type 0 where
  returned : A → W → Reply W A
  thrown : String → W → Reply W A

abbrev pub after : {W A B : Type 0} → Reply W A → (A → W → Reply W B) → Reply W B
after (returned a w) next = next a w
after (thrown message w) next = thrown message w

pub data Done : Type 0 where
  nothing : Done

-- The calls that EXECUTE makes, on a daemon in a state `w`
pub record DockerClient (W : Type 0) : Type 0 where
  pub find_network : String → W → Option DockerNetworkInfo
  pub create_network : String → Labels → Option NetworkDriverOptions → W → Reply W Done
  pub find_volume : String → W → Option DockerVolumeInfo
  pub create_volume : String → Labels → W → Reply W Done
  pub find_container : String → W → Option DockerContainerInfo
  pub create_container : CreateContainerOptions → W → Reply W String
  pub remove_container : String → W → Reply W Done
  pub start_container : String → W → Reply W Done
  pub connect_network : String → String → W → Reply W Done

-- The label that the find calls filter on
abbrev pub IsManaged : Labels → Type 0
IsManaged labels = lookup "wanfw.managed" labels ≡ some "true"

-- What the daemon's documentation says of calls that return. The find calls list objects with the label
-- wanfw.managed=true only, so an object is found by its name if it was created with that label. A
-- container has the labels that it was created with, and those of its image under other keys.
pub record DockerLaws (W : Type 0) (docker : DockerClient W) : Type 0 where
  pub network_created :
      (name : String) (labels : Labels) (o : Option NetworkDriverOptions) (w w' : W) (d : Done)
      → IsManaged labels
      → docker.create_network name labels o w ≡ returned d w'
      → (i : DockerNetworkInfo) × (docker.find_network name w' ≡ some i)
  pub volume_created :
      (name : String) (labels : Labels) (w w' : W) (d : Done)
      → IsManaged labels
      → docker.create_volume name labels w ≡ returned d w'
      → (i : DockerVolumeInfo) × (docker.find_volume name w' ≡ some i)
  pub container_created :
      (o : CreateContainerOptions) (w w' : W) (id : String)
      → IsManaged o.labels
      → docker.create_container o w ≡ returned id w'
      → (i : DockerContainerInfo) × (docker.find_container o.name w' ≡ some i)
        × (i.id ≡ id)
        × ((k v : String) → lookup k o.labels ≡ some v → lookup k i.labels ≡ some v)
  -- A started container keeps its labels.
  pub container_started :
      (name id : String) (w w' : W) (d : Done) (i : DockerContainerInfo)
      → docker.find_container name w ≡ some i
      → i.id ≡ id
      → docker.start_container id w ≡ returned d w'
      → (j : DockerContainerInfo) × (docker.find_container name w' ≡ some j)
        × (j.id ≡ id)
        × (j.labels ≡ i.labels)
        × (j.state ≡ "running")
  pub network_connected :
      (name id network : String) (w w' : W) (d : Done) (i : DockerContainerInfo)
      → docker.find_container name w ≡ some i
      → i.id ≡ id
      → docker.connect_network id network w ≡ returned d w'
      → (j : DockerContainerInfo) × (docker.find_container name w' ≡ some j) × In network j.networks
