-- ===== src/Library/Calls.antt =====
-- The calls of the helpers of pkg/utils/utils.go and of reads that may find nothing.
use rolebasedgroup.Prelude.{◌≡◌, sym, ap, ◌∙◌, ◌∷◌, ok, err, panic, is_not_found, Result}
use rolebasedgroup.Objects.{Applied, ConfigMapApply, config_map_config}
use rolebasedgroup.Client.{Client, Trace, Call, M, lift, pure, attempt, apply, perform}
use rolebasedgroup.Client.Laws.{bind-run}
use rolebasedgroup.Client.Only.{Only, Prepares, bind-Only, no_call, one_call, if-Only}
use rolebasedgroup.Library.{Library, patch_spec, patch_object, read_or, found_or}

found_or-Only :
    (P : Call → Type 0) {A : Type 0} (empty : A) (r : Result A) → Only P (found_or empty r)
unfolding found_or
found_or-Only P empty (ok a) = no_call P
found_or-Only P empty (err e) =
    if-Only P (is_not_found e) (pure empty) (lift (err e)) (no_call P) (no_call P)
found_or-Only P empty panic = no_call P

pub read_or-Only :
    (P : Call → Type 0) {A : Type 0} (empty : A) (m : M A) → Only P m → Only P (read_or empty m)
unfolding read_or
read_or-Only P empty m h = bind-Only P (attempt m) (found_or empty) h (found_or-Only P empty)

pub patch_config_map-Prepares :
    (client : Client) (lib : Library) (c : ConfigMapApply)
    → Only Prepares (patch_object client lib (config_map_config c) patch_spec)
unfolding patch_object perform
patch_config_map-Prepares client lib c =
    bind-Only Prepares (lift (lib.to_unstructured (config_map_config c))) _ (no_call Prepares) λ _.
      bind-Only Prepares (perform client (apply (config_map_config c))) _
        (one_call Prepares (apply (config_map_config c)) tt) λ _. no_call Prepares

-- A patch of an object's spec that succeeds has applied it.
pub patch_object-applies :
    (client : Client) (lib : Library) (config : Applied) (t v : Trace)
    → patch_object client lib config patch_spec t ≡ (ok tt, v)
    → v ≡ apply config ∷ t
unfolding patch_object perform
patch_object-applies client lib config t v h =
    let (_, u, e, h1) = bind-run (lift (lib.to_unstructured config)) _ t v tt h in
    let (_, w, f, h2) = bind-run (perform client (apply config)) _ u v tt h1 in
    ap (λ r. r.1) (sym h2) ∙ ap (λ r. r.1) (sym f) ∙ ap (λ r. apply config ∷ r.1) (sym e)
