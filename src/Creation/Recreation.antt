-- ===== src/Creation/Recreation.antt =====
-- daemon/pod/container.go: init on a container that the engine has lost.
use hyperd.Prelude.{
  ◌≡◌, refl, sym, ap, ◌∙◌, arith, true, false, Option, none, some, Result, ok, err, ◌>>=◌,
}
use hyperd.Prelude.Text.{Text}
use hyperd.PodSpec.{is_nil}
use hyperd.Creation.Spec.{Error, UserContainer, ContainerJson, ContainerDescription}
use hyperd.Creation.Describe.{describe_container}
use hyperd.Creation.Volumes.{merge_volumes}
use hyperd.Creation.Init.{
  Answers, load_json, create_by_engine, finish, init_created, init_loaded, init,
}
use hyperd.Creation.Reload.{imaged, finish-loaded, ok_injective}

init-recreates :
    (a : Answers) (c : UserContainer) (id : Text) (json : ContainerJson)
    → is_nil c.name ≡ false
    → is_nil c.id ≡ false
    → a.inspected ≡ none
    → a.created ≡ some (id, json)
    → init a true c ≡ finish a true (record c { id = id }) json
unfolding init load_json init_created create_by_engine init_loaded
init-recreates a c id json named old lost created =
    rw (named, old)
      (ap (λ o. init_loaded a true (load_json c o)) lost
        ∙ ap
            (λ (o : Option (Text × ContainerJson)).
              create_by_engine c o >>= (λ q. finish a true q.0 q.1))
            created)

-- When the spec of a container has an id that the engine does not know and the engine creates the
-- container anew, init adds nothing to the spec but the new id, the image and the volumes of the
-- image: no volume is given a source, and no hosts file and no resolv.conf is added. The
-- description says that the container is not to be initialised.
pub init-recreated :
    (a : Answers) (c : UserContainer) (id : Text) (json : ContainerJson)
    (r : UserContainer × ContainerDescription)
    → is_nil c.name ≡ false
    → is_nil c.id ≡ false
    → a.inspected ≡ none
    → a.created ≡ some (id, json)
    → init a true c ≡ ok r
    → (r.0 ≡ merge_volumes json (imaged json (record c { id = id }))) × (r.1.initialize ≡ false)
init-recreated a c id json r named old lost created h =
    of_description (describe_container (imaged json c') json a.mount_id) refl
  where
    c' : UserContainer
    c' = record c { id = id }

    finished : finish a true c' json ≡ ok r
    finished = sym (init-recreates a c id json named old lost created) ∙ h

    of_description :
        (q : Result Error ContainerDescription)
        → describe_container (imaged json c') json a.mount_id ≡ q
        → (r.0 ≡ merge_volumes json (imaged json c')) × (r.1.initialize ≡ false)
    of_description (err x) e = absurd (unfold finish in ground (arith, finished, e))
    of_description (ok desc) e =
        let same =
          ok_injective _ r (finish a true c' json) (finish-loaded a c' json desc e) finished in
        (
          sym (ap (λ q. q.0) same),
          sym (ap (λ (q : UserContainer × ContainerDescription). q.1.initialize) same),
        )
