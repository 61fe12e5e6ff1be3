-- ===== src/Creation/Reload.antt =====
-- daemon/pod/container.go: init on a container that it has created before.
use hyperd.Prelude.{
  ◌≡◌, refl, sym, ap, ◌∙◌, arith, Bool, true, false, Option, none, some, List, [], ◌∷◌, ◌++◌,
  ==_iff, append-nil, subst, Result, ok, err,
}
use hyperd.Prelude.Text.{Text, text_eq}
use hyperd.PodSpec.{is_nil}
use hyperd.Creation.Spec.{
  Error, UserVolumeReference, UserFileReference, UserContainer, ContainerJson, ContainerDescription,
}
use hyperd.Creation.Describe.{or_text, describe_container}
use hyperd.Creation.Volumes.{missing_volumes, merge_volumes, parse_volumes}
use hyperd.Creation.Init.{
  Answers, trim_slashes, load_json, create_by_engine, complete, finish, init_created, init_loaded,
  init,
}
use hyperd.Creation.Growth.{
  Mounted, Mounted-mono, missing_volumes-none, missing_volumes-Mounted, Grown, complete-Grown,
}

or_text_idem : (t default : Text) → or_text (or_text t default) default ≡ or_text t default
or_text_idem [] [] = refl
or_text_idem [] (c ∷ cs) = refl
or_text_idem (c ∷ cs) default = refl

describe_container-Grown :
    (c : UserContainer) (vs : List UserVolumeReference) (fs : List UserFileReference)
    (json : ContainerJson) (mount_id : Option Text)
    → describe_container (record c { volumes = vs; files = fs }) json mount_id
      ≡ describe_container c json mount_id
unfolding describe_container
describe_container-Grown c vs fs json none = refl
describe_container-Grown c vs fs json (some m) = refl

-- The record with the image filled in.
abbrev pub imaged : ContainerJson → UserContainer → UserContainer
imaged json c = record c { image = or_text c.image json.config_image }

pub ok_injective {ℓ κ} :
    {E : Type ℓ} {A : Type κ} (a b : A) (r : Result E A) → r ≡ ok a → r ≡ ok b → a ≡ b
ok_injective a b r h k = ap (λ q. elim q [ ok x ↦ x | err e ↦ a ]) (sym h ∙ k)

finish-step :
    (a : Answers) (c c' : UserContainer) (json : ContainerJson) (desc : ContainerDescription)
    → describe_container (imaged json c) json a.mount_id ≡ ok desc
    → complete a (merge_volumes json (imaged json c)) ≡ ok c'
    → finish a false c json
      ≡ ok (c', record desc { volumes = parse_volumes c'.volumes; initialize = true })
unfolding finish
finish-step a c c' json desc e f = rw (e, f, finish) refl

pub finish-loaded :
    (a : Answers) (c : UserContainer) (json : ContainerJson) (desc : ContainerDescription)
    → describe_container (imaged json c) json a.mount_id ≡ ok desc
    → finish a true c json
      ≡ ok (
        merge_volumes json (imaged json c),
        record desc {
          volumes = parse_volumes (merge_volumes json (imaged json c)).volumes;
          initialize = false;
        },
      )
unfolding finish
finish-loaded a c json desc e = rw (e, finish) refl

-- What a successful creation has gone through.
abbrev Finished :
    Answers → UserContainer → ContainerJson → UserContainer × ContainerDescription → Type 0
Finished a c json r =
    (desc : ContainerDescription) × (describe_container (imaged json c) json a.mount_id ≡ ok desc)
    × (complete a (merge_volumes json (imaged json c)) ≡ ok r.0)
    × (r.1 ≡ record desc { volumes = parse_volumes r.0.volumes; initialize = true })

finish-Finished :
    (a : Answers) (c : UserContainer) (json : ContainerJson)
    (r : UserContainer × ContainerDescription)
    → finish a false c json ≡ ok r
    → Finished a c json r
finish-Finished a c json r h =
    of_description (describe_container (imaged json c) json a.mount_id) refl
  where
    of_description :
        (q : Result Error ContainerDescription)
        → describe_container (imaged json c) json a.mount_id ≡ q
        → Finished a c json r
    of_description (err x) e = absurd (unfold finish in ground (arith, h, e))
    of_description (ok desc) e = of_completed (complete a (merge_volumes json (imaged json c))) refl
      where
        of_completed :
            (q : Result Error UserContainer)
            → complete a (merge_volumes json (imaged json c)) ≡ q
            → Finished a c json r
        of_completed (err x) f = absurd (unfold finish in ground (arith, h, e, f))
        of_completed (ok c') f =
            let same =
              ok_injective _ r (finish a false c json) (finish-step a c c' json desc e f) h in
            subst (λ x. Finished a c json x) same (desc, e, f, refl)

merge_volumes-again :
    (json : ContainerJson) (c d : UserContainer)
    → Grown (merge_volumes json c) d
    → merge_volumes json d ≡ d
unfolding merge_volumes
merge_volumes-again json c d (vs, fs, e, more) =
    let mounted : Mounted json.volumes vs =
      Mounted-mono json.volumes (c.volumes ++ missing_volumes c.id c.volumes json.volumes) vs more
        (missing_volumes-Mounted c.id c.volumes json.volumes) in
    subst (λ (x : UserContainer). merge_volumes json x ≡ x) (sym e)
      (ap (λ t. record c { volumes = t; files = fs })
        (ap (λ t. vs ++ t) (missing_volumes-none c.id vs json.volumes mounted) ∙ append-nil vs))

-- The image of a completed container stays.
imaged-again :
    (json : ContainerJson) (c d : UserContainer)
    → Grown (merge_volumes json (imaged json c)) d
    → imaged json d ≡ d
unfolding merge_volumes
imaged-again json c d (vs, fs, e, more) =
    subst (λ (x : UserContainer). imaged json x ≡ x) (sym e)
      (ap (λ t. record c { image = t; volumes = vs; files = fs })
        (or_text_idem c.image json.config_image))

describe_container-again :
    (json : ContainerJson) (c d : UserContainer) (mount_id : Option Text)
    → Grown (merge_volumes json (imaged json c)) d
    → describe_container d json mount_id ≡ describe_container (imaged json c) json mount_id
unfolding merge_volumes
describe_container-again json c d mount_id (vs, fs, e, more) =
    ap (λ x. describe_container x json mount_id) e
    ∙ describe_container-Grown (imaged json c) vs fs json mount_id

finish_again :
    (a b : Answers) (c : UserContainer) (json : ContainerJson)
    (r : UserContainer × ContainerDescription)
    → b.mount_id ≡ a.mount_id
    → finish a false c json ≡ ok r
    → finish b true r.0 json ≡ ok (r.0, record r.1 { initialize = false })
finish_again a b c json r same h =
    let (desc, e, f, parts) = finish-Finished a c json r h in
    let grown = complete-Grown a (merge_volumes json (imaged json c)) r.0 f in
    let image = imaged-again json c r.0 grown in
    let described =
      ap (λ x. describe_container x json b.mount_id) image
      ∙ describe_container-again json c r.0 b.mount_id grown
      ∙ ap (λ m. describe_container (imaged json c) json m) same
      ∙ e in
    let merged =
      ap (λ x. merge_volumes json x) image ∙ merge_volumes-again json (imaged json c) r.0 grown in
    finish-loaded b r.0 json desc described
    ∙ ap
        (λ (x : UserContainer).
          ok (x, record desc { volumes = parse_volumes x.volumes; initialize = false }))
        merged
    ∙ ap (λ (x : ContainerDescription). ok (r.0, record x { initialize = false })) (sym parts)

init-creates :
    (a : Answers) (c : UserContainer) (id : Text) (json : ContainerJson)
    → is_nil c.name ≡ false
    → is_nil c.id ≡ true
    → a.created ≡ some (id, json)
    → init a true c ≡ finish a false (record c { id = id }) json
unfolding init init_created create_by_engine
init-creates a c id json named new created = rw (named, new, created) refl

load_json-same :
    (c : UserContainer) (json : ContainerJson)
    → c.name ≡ trim_slashes json.name
    → load_json c (some json) ≡ (c, some json)
unfolding load_json
load_json-same c json same = rw ((==_iff c.name (trim_slashes json.name)).1 same) refl

init-loads :
    (a : Answers) (allow_create : Bool) (c : UserContainer) (json : ContainerJson)
    → is_nil c.name ≡ false
    → is_nil c.id ≡ false
    → a.inspected ≡ some json
    → c.name ≡ trim_slashes json.name
    → init a allow_create c ≡ finish a true c json
unfolding init init_loaded
init-loads a allow_create c json named old inspected same =
    rw (named, old)
      (ap (λ q. init_loaded a allow_create q)
        (ap (λ o. load_json c o) inspected ∙ load_json-same c json same))

finish-id :
    (a : Answers) (c : UserContainer) (json : ContainerJson)
    (r : UserContainer × ContainerDescription)
    → finish a false c json ≡ ok r
    → (r.0.id ≡ c.id) × (r.0.name ≡ c.name)
unfolding merge_volumes
finish-id a c json r h =
    let (desc, e, f, parts) = finish-Finished a c json r h in
    let (vs, fs, same, more) = complete-Grown a (merge_volumes json (imaged json c)) r.0 f in
    (ap (λ (x : UserContainer). x.id) same, ap (λ (x : UserContainer). x.name) same)

-- When a new container has been created, under an id that is not empty and with its name, a later
-- init of its spec that finds it in the engine, as it was and on the same mount, gives the same
-- spec and the same description, but for the mark that the container is to be initialised. The
-- other answers, and whether creation is allowed, make no difference.
pub init-reload :
    (a b : Answers) (allow_create : Bool) (c : UserContainer) (id : Text) (json : ContainerJson)
    (r : UserContainer × ContainerDescription)
    → is_nil c.name ≡ false
    → is_nil c.id ≡ true
    → a.created ≡ some (id, json)
    → is_nil id ≡ false
    → c.name ≡ trim_slashes json.name
    → b.inspected ≡ some json
    → b.mount_id ≡ a.mount_id
    → init a true c ≡ ok r
    → init b allow_create r.0 ≡ ok (r.0, record r.1 { initialize = false })
init-reload a b allow_create c id json r named new created given same inspected mount h =
    let finished = sym (init-creates a c id json named new created) ∙ h in
    let (has_id, has_name) = finish-id a (record c { id = id }) json r finished in
    init-loads b allow_create r.0 json (ap (λ n. is_nil n) has_name ∙ named)
      (ap (λ n. is_nil n) has_id ∙ given) inspected (has_name ∙ same)
    ∙ finish_again a b (record c { id = id }) json r mount finished
