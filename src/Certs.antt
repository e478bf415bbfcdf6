-- ===== src/Certs.antt =====
-- The certificate volume (packages/orchestrator/src/certs/store.ts). The directory of a certificate is
-- its generations in ascending order of their numbers, the number in the `current` pointer
-- file, and the renewal state file. A JSON file is what JSON.parse gives of it. The temporary files and
-- directories, which no function reads, are left out: the rename that puts one in place is the step.
pub mod Ascending
pub mod Crash
pub mod Rollback
pub mod Runs
use wanfw.Common.{
  ℕ, suc, ◌-◌, String, Bool, true, false, not, ◌==◌, ltb, leb, eqb, if◌then◌else◌, List, [], ◌∷◌,
  ◌++◌, Option, none, some, map, filter, find, last, length, take, drop, is_some, sort, text_le,
  or_else, upsert,
}
use wanfw.Json.{Json, Fields, str, obj, end, field}
use wanfw.Renewal.{RenewalState, initial_renewal_state}

-- The files of one generation, none where the file is missing; `meta` also where it does not parse.
pub record Generation : Type 0 where
  pub number : ℕ
  pub fullchain : Option String
  pub key : Option String
  pub meta : Option Fields

pub record CertDir : Type 0 where
  pub generations : List Generation
  pub current : Option ℕ
  pub renewal_state : Option RenewalState

pub record NamedDir : Type 0 where
  pub name : String
  pub dir : CertDir

abbrev pub CertVolume : Type 0
CertVolume = List NamedDir

abbrev pub empty_dir : CertDir
empty_dir = record { generations = []; current = none; renewal_state = none }

abbrev pub dir_or_empty : Option NamedDir → CertDir
dir_or_empty none = empty_dir
dir_or_empty (some d) = d.dir

-- The directory of a name, empty where it does not exist.
unfoldable pub name_dir : CertVolume → String → CertDir
name_dir volume name = dir_or_empty (find (λ (d : NamedDir). d.name == name) volume)

unfoldable pub put_dir : CertVolume → String → CertDir → CertVolume
put_dir volume name dir =
    upsert (λ (d : NamedDir). d.name == name) (λ d. record { name = name; dir = dir })
      (record { name = name; dir = dir }) volume

abbrev pub retained_generations : ℕ
retained_generations = 3

unfoldable pub read_renewal_state : CertDir → RenewalState
read_renewal_state d = or_else d.renewal_state initial_renewal_state

unfoldable pub write_renewal_state : RenewalState → CertDir → CertDir
write_renewal_state state d = record d { renewal_state = some state }

abbrev pub numbers : List Generation → List ℕ
numbers gens = map (λ (g : Generation). g.number) gens

unfoldable pub list_generations : CertDir → List ℕ
list_generations d = sort leb (numbers d.generations)

-- What `storeCert` and `rollbackCert` do to the directory. The two renames are atomic; the removal of a
-- generation deletes its files one by one and then its directory.
pub data FsStep : Type 0 where
  rename_into : Generation → FsStep
  write_current : ℕ → FsStep
  remove_gen : ℕ → FsStep

unfoldable pub apply : FsStep → CertDir → CertDir
apply (rename_into g) d = record d { generations = d.generations ++ (g ∷ []) }
apply (write_current n) d = record d { current = some n }
apply (remove_gen n) d = record d {
  generations = filter (λ (g : Generation). not (eqb g.number n)) d.generations;
}

pub data CertFile : Type 0 where
  fullchain_file : CertFile
  key_file : CertFile
  meta_file : CertFile

abbrev pub without_file : CertFile → Generation → Generation
without_file fullchain_file g = record g { fullchain = none }
without_file key_file g = record g { key = none }
without_file meta_file g = record g { meta = none }

abbrev pub without_files : List CertFile → Generation → Generation
without_files [] g = g
without_files (f ∷ fs) g = without_files fs (without_file f g)

-- The generations, with these files of one of them gone.
abbrev pub stripped : List CertFile → ℕ → List Generation → List Generation
stripped fs n gens = map (λ (g : Generation). if eqb g.number n then without_files fs g else g) gens

-- A step that is cut off: a rename has done nothing, a removal has deleted these files.
unfoldable pub interrupt : List CertFile → List FsStep → CertDir → CertDir
interrupt fs (remove_gen n ∷ steps) d = record d { generations = stripped fs n d.generations }
interrupt fs (rename_into g ∷ steps) d = d
interrupt fs (write_current n ∷ steps) d = d
interrupt fs [] d = d

unfoldable pub run : List FsStep → CertDir → CertDir
unfolding apply
run [] d = d
run (s ∷ steps) d = run steps (apply s d)

-- `{ ...meta, storedAt }`
abbrev pub put_field : String → Json → Fields → Fields
put_field k v end = field k v end
put_field k v (field j w fs) = if j == k then field j v fs else field j w (put_field k v fs)

abbrev pub next_gen : CertDir → ℕ
next_gen d = suc (or_else (last (list_generations d)) 0)

abbrev pub new_generation : String → String → String → Fields → ℕ → Generation
new_generation now cert_pem key_pem meta n = record {
  number = n;
  fullchain = some cert_pem;
  key = some key_pem;
  meta = some (put_field "storedAt" (str now) meta);
}

-- The generations that a store removes, the oldest of all beyond those retained.
abbrev pub to_prune : List ℕ → List ℕ
to_prune all = take (length all - retained_generations) all

-- The steps of `storeCert`, in order.
unfoldable pub store_steps : Generation → CertDir → List FsStep
unfolding list_generations
store_steps g d =
    rename_into g
    ∷ write_current g.number
    ∷ map remove_gen (to_prune (sort leb (list_generations d ++ (g.number ∷ []))))

unfoldable pub store_cert : String → String → String → Fields → CertDir → CertDir × ℕ
unfolding store_steps run
store_cert now cert_pem key_pem meta d =
    let g = new_generation now cert_pem key_pem meta (next_gen d) in
    (run (store_steps g d) d, g.number)

abbrev pub generation_of : Option ℕ → List Generation → Option Generation
generation_of none gens = none
generation_of (some n) gens = find (λ (g : Generation). eqb g.number n) gens

abbrev pub with_fullchain : Option Generation → Option Generation
with_fullchain none = none
with_fullchain (some g) = if is_some g.fullchain then some g else none

-- The generation whose certificate and key `currentCertPaths` names.
unfoldable pub current_cert : CertDir → Option Generation
current_cert d = with_fullchain (generation_of d.current d.generations)

-- A store that is cut off after `i` of its steps, with these files deleted by the step after them.
unfoldable pub cut_store : List CertFile → ℕ → Generation → CertDir → CertDir
unfolding store_steps run interrupt
cut_store fs i g d = interrupt fs (drop i (store_steps g d)) (run (take i (store_steps g d)) d)

pub data RollbackResult : Type 0 where
  never_stored : RollbackResult
  no_earlier_generation : RollbackResult
  rolled_back : ℕ → CertDir → RollbackResult

abbrev pub point_to : CertDir → Option ℕ → RollbackResult
point_to d none = no_earlier_generation
point_to d (some n) = rolled_back n (apply (write_current n) d)

abbrev pub rollback_from : CertDir → Option ℕ → RollbackResult
rollback_from d none = never_stored
rollback_from d (some current) =
    point_to d (last (filter (λ n. ltb n current) (list_generations d)))

unfoldable pub rollback_cert : CertDir → RollbackResult
rollback_cert d = rollback_from d d.current

pub record CertListEntry : Type 0 where
  pub name : String
  pub current_generation : ℕ
  pub generations : List ℕ
  pub meta : Option Fields
  pub renewal : RenewalState

abbrev pub meta_of : Option Generation → Option Fields
meta_of none = none
meta_of (some g) = g.meta

unfoldable pub cert_list_entry : NamedDir → CertListEntry
unfolding list_generations read_renewal_state
cert_list_entry d =
    let current = or_else d.dir.current (or_else (last (list_generations d.dir)) 0) in
    record {
      name = d.name;
      current_generation = current;
      generations = list_generations d.dir;
      meta = meta_of (generation_of (some current) d.dir.generations);
      renewal = read_renewal_state d.dir;
    }

unfoldable pub list_certs : CertVolume → List CertListEntry
unfolding cert_list_entry
list_certs volume =
    sort (λ (a b : CertListEntry). text_le a.name b.name) (map cert_list_entry volume)
