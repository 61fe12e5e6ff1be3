-- ===== src/Tests/Making.antt =====
-- daemon/pod/provision.go, exec.go and engine/env.go: a pod that is not created, a name left behind,
-- the code of an exec, and an environment written and read.
use hyperd.Prelude.{
  ℕ, suc, String, ◌≡◌, refl, true, false, none, some, List, [], ◌∷◌, All, Dict, lookup, insert, err,
  string_eq, nat_eq,
}
use hyperd.Prelude.Text.{Text, text_eq, codes}
use hyperd.Prelude.Int.{pos}
use hyperd.Registry.{PodList, Heap, ContainerSpec, starting, new_pod_list, release}
use hyperd.Provision.{Answers, initialised, create_x_pod, container_create, uncreated}
use hyperd.Provision.Rollback.{Outcome, create_x_pod-Outcome}
use hyperd.Provision.Leftover.{container_create-leftover}
use hyperd.Exec.{Exec, new_exec, take, put_back, run, get_exec_exit_code}
use hyperd.Exec.Codes.{put, get_exec_exit_code-run}
use hyperd.Env.{multi_map, init_multi_map, values}
use hyperd.Env.Multi.{multi_map-init_multi_map}

abbrev heap : Heap
heap p = record { id = "web"; status = starting; containers = [] }

abbrev container : String → ContainerSpec
container id = record { id = id; name = "nginx" }

abbrev unsaved : Answers
unsaved = record {
  made = true;
  sandbox = initialised;
  specs = container "c1" ∷ [];
  heap = heap;
  resources = true;
  prepared = true;
  added = true;
  saved = false;
  sandbox_left = true;
}

create_x_pod-Outcome_example :
    Outcome heap 1
      (container "" ∷ [])
      unsaved
      new_pod_list
      (create_x_pod heap 1 (container "" ∷ []) unsaved new_pod_list)
create_x_pod-Outcome_example = create_x_pod-Outcome heap 1 (container "" ∷ []) unsaved new_pod_list

abbrev registered : PodList
registered = record new_pod_list { pods = ("web", 1) ∷ [] }

container_create-leftover_example :
    ((container_create "web" true "nginx" none registered).1 ≡ err uncreated)
    × (lookup "nginx"
          (release heap "web"
            (container_create "web" true "nginx" none registered).0).container_names
        ≡ some "web")
    × (lookup "web"
          (release heap "web" (container_create "web" true "nginx" none registered).0).pods
        ≡ none)
unfolding lookup
container_create-leftover_example =
    container_create-leftover heap 1 "web" "nginx" registered refl refl refl

abbrev process : Exec
process = new_exec (codes "0123456789ab") (codes "ls" ∷ []) false

abbrev asked : Exec
asked = record process { exit_code = 44; full = true; answers = 44 ∷ [] }

get_exec_exit_code-run_example :
    All (λ a. a ≡ 44) asked.answers
    × ((n : ℕ) → asked.taken ≡ suc n → run (put_back ∷ []) asked ≡ some (put n asked))
    × (asked.taken ≡ 0
        → get_exec_exit_code (codes "exec-1") (insert (codes "exec-1") asked []) ≡ (44, none))
unfolding run
get_exec_exit_code-run_example =
    get_exec_exit_code-run (codes "exec-1") [] process asked (pos 300) (take ∷ put_back ∷ []) refl
      refl (refl, (refl, tt)) refl

abbrev settings : Dict Text (List Text)
settings = (codes "A", codes "1" ∷ codes "2=3" ∷ []) ∷ (codes "B", []) ∷ []

multi_map-init_multi_map_example :
    (m : Dict Text (List Text)) × (multi_map (init_multi_map settings) ≡ some m)
    × ((key : Text) → values (lookup key m) ≡ values (lookup key settings))
unfolding lookup
multi_map-init_multi_map_example =
    multi_map-init_multi_map settings ((refl, refl, (refl, refl, tt)))
