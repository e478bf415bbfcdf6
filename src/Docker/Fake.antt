-- ===== src/Docker/Fake.antt =====
-- The in-memory Docker client (packages/orchestrator/src/execute/fake-docker-client.ts). A map is the
-- list of its entries.
use wanfw.Common.{
  ℕ, suc, String, ◌≡◌, refl, ap, ◌∙◌, inl, inr, ◌==◌, eq_iff, List, [], ◌∷◌, ◌++◌, Option, none,
  some, append, if◌then◌else◌, Bool-cases, some_inj, In, In-append_right,
}
use wanfw.Json.{decimal}
use wanfw.Scope.{includes}
use wanfw.Scope.Names.{includes_iff}
use wanfw.Pipeline.{lookup}
use wanfw.Docker.{
  Labels, DockerNetworkInfo, DockerVolumeInfo, DockerContainerInfo, CreateContainerOptions,
  NetworkDriverOptions, Reply, returned, Done, nothing, DockerClient, DockerLaws,
}

-- `map.set(key, value)`
abbrev set {ℓ} : {V : Type ℓ} → String → V → List (String × V) → List (String × V)
set key value [] = (key, value) ∷ []
set key value ((k, v) ∷ m) = if k == key then (k, value) ∷ m else (k, v) ∷ set key value m

pub record FakeDocker : Type 0 where
  pub networks : List (String × DockerNetworkInfo)
  pub driver_options : List (String × NetworkDriverOptions)
  pub volumes : List (String × DockerVolumeInfo)
  pub containers : List (String × DockerContainerInfo)
  pub next_id : ℕ

abbrev pub no_objects : FakeDocker
no_objects = record {
  networks = [];
  driver_options = [];
  volumes = [];
  containers = [];
  next_id = 1;
}

abbrev remember :
    String
    → Option NetworkDriverOptions
    → List (String × NetworkDriverOptions)
    → List (String × NetworkDriverOptions)
remember name none m = m
remember name (some o) m = set name o m

abbrev create_network :
    String → Labels → Option NetworkDriverOptions → FakeDocker → Reply FakeDocker Done
create_network name labels o w = returned nothing (record w {
  networks =
      set name (record { id = append "net-" (decimal w.next_id); name = name; labels = labels })
        w.networks;
  driver_options = remember name o w.driver_options;
  next_id = suc w.next_id;
})

abbrev create_volume : String → Labels → FakeDocker → Reply FakeDocker Done
create_volume name labels w =
    returned nothing
      (record w { volumes = set name (record { name = name; labels = labels }) w.volumes })

abbrev created : CreateContainerOptions → ℕ → DockerContainerInfo
created o n = record {
  id = append "ctr-" (decimal n);
  name = o.name;
  labels = o.labels;
  networks = [];
  state = "created";
}

abbrev create_container : CreateContainerOptions → FakeDocker → Reply FakeDocker String
create_container o w = returned (append "ctr-" (decimal w.next_id)) (record w {
  containers = set o.name (created o w.next_id) w.containers;
  next_id = suc w.next_id;
})

abbrev on_each :
    (DockerContainerInfo → DockerContainerInfo)
    → List (String × DockerContainerInfo)
    → List (String × DockerContainerInfo)
on_each f [] = []
on_each f ((k, i) ∷ m) = (k, f i) ∷ on_each f m

abbrev without_id :
    String → List (String × DockerContainerInfo) → List (String × DockerContainerInfo)
without_id id [] = []
without_id id ((k, i) ∷ m) = if i.id == id then without_id id m else (k, i) ∷ without_id id m

abbrev remove_container : String → FakeDocker → Reply FakeDocker Done
remove_container id w = returned nothing (record w { containers = without_id id w.containers })

abbrev start : String → DockerContainerInfo → DockerContainerInfo
start id i = if i.id == id then record i { state = "running" } else i

abbrev start_container : String → FakeDocker → Reply FakeDocker Done
start_container id w = returned nothing (record w { containers = on_each (start id) w.containers })

abbrev attach : String → String → DockerContainerInfo → DockerContainerInfo
attach id network i =
    if i.id == id
    then if includes i.networks network
      then i
      else record i { networks = i.networks ++ network ∷ [] }
    else i

abbrev connect_network : String → String → FakeDocker → Reply FakeDocker Done
connect_network id network w =
    returned nothing (record w { containers = on_each (attach id network) w.containers })

abbrev pub fake_docker : DockerClient FakeDocker
fake_docker = record {
  find_network = λ name w. lookup name w.networks;
  create_network = create_network;
  find_volume = λ name w. lookup name w.volumes;
  create_volume = create_volume;
  find_container = λ name w. lookup name w.containers;
  create_container = create_container;
  remove_container = remove_container;
  start_container = start_container;
  connect_network = connect_network;
}

lookup-set_self {ℓ} :
    {V : Type ℓ} (k : String) (v : V) (m : List (String × V)) → lookup k (set k v m) ≡ some v
lookup-set_self k v [] = rw ((eq_iff k k).1 refl) refl
lookup-set_self k v ((j, u) ∷ m) = elim (Bool-cases (j == k)) [
  | inl e ↦ rw e (rw e refl)
  | inr e ↦ rw e (rw e (lookup-set_self k v m))
]

lookup-on_each :
    (f : DockerContainerInfo → DockerContainerInfo) (k : String) (i : DockerContainerInfo)
    (m : List (String × DockerContainerInfo))
    → lookup k m ≡ some i
    → lookup k (on_each f m) ≡ some (f i)
lookup-on_each f k i [] h = cc
lookup-on_each f k i ((j, u) ∷ m) h = elim (Bool-cases (j == k)) [
  | inl e ↦ let same : u ≡ i = some_inj (rw e at h) in rw e (ap (λ x. some (f x)) same)
  | inr e ↦ rw e (lookup-on_each f k i m (rw e at h))
]

state_of : {A : Type 0} → Reply FakeDocker A → FakeDocker
state_of (returned a w) = w
state_of (Reply.thrown m w) = w

same_state :
    {A : Type 0} {a b : A} {w v : FakeDocker}
    → Path (Reply FakeDocker A) (returned a w) (returned b v)
    → w ≡ v
unfolding state_of
same_state h = ap state_of h

result_of : {A : Type 0} → A → Reply FakeDocker A → A
result_of d (returned a w) = a
result_of d (Reply.thrown m w) = d

same_result :
    {A : Type 0} {a b : A} {w v : FakeDocker}
    → Path (Reply FakeDocker A) (returned a w) (returned b v)
    → a ≡ b
unfolding result_of
same_result {a} h = ap (result_of a) h

attached :
    (id network : String) (i : DockerContainerInfo)
    → i.id ≡ id
    → In network (attach id network i).networks
attached id network i same =
    let hit = (eq_iff i.id id).1 same in
    elim (Bool-cases (includes i.networks network)) [
      | inl e ↦ rw hit (rw e ((includes_iff i.networks network).0 e))
      | inr e ↦ rw hit (rw e (In-append_right network i.networks (network ∷ []) (inl refl)))
    ]

-- The in-memory client is a client as the code relies on it.
pub fake_laws : DockerLaws FakeDocker fake_docker
fake_laws = record {
  network_created = λ name labels o w w' d m h.
      let e = same_state h in
      (
        record { id = append "net-" (decimal w.next_id); name = name; labels = labels },
        rw (← e) (
            lookup-set_self name
              (record { id = append "net-" (decimal w.next_id); name = name; labels = labels })
              w.networks),
      );
  volume_created = λ name labels w w' d m h.
      let e = same_state h in
      (
        record { name = name; labels = labels },
        rw (← e) (lookup-set_self name (record { name = name; labels = labels }) w.volumes),
      );
  container_created = λ o w w' id m h.
      let e = same_state h in
      (
        created o w.next_id,
        rw (← e) (lookup-set_self o.name (created o w.next_id) w.containers),
        same_result h,
        (λ k v kept. kept),
      );
  container_started = λ name id w w' d i f same h.
      let e = same_state h in
      let hit = (eq_iff i.id id).1 same in
      (
        record i { state = "running" },
        rw (← e) (lookup-on_each (start id) name i w.containers f ∙ rw hit refl),
        same,
        refl,
        refl,
      );
  network_connected = λ name id network w w' d i f same h.
      let e = same_state h in
      (
        attach id network i,
        rw (← e) (lookup-on_each (attach id network) name i w.containers f),
        attached id network i same,
      );
}
