-- ===== src/Discovery/Env.antt =====
-- The environment that `InjectEnv` of pkg/discovery/injector.go gives a container.
use rolebasedgroup.Prelude.{
  String, true, Option, none, some, List, [], ◌∷◌, ◌≡◌, refl, str_eq, str_le, str_eq_refl,
  if◌then◌else◌, arith,
}
use text.Mathlib.TextEquality.{eq_iff}
use rolebasedgroup.Api.{EnvVar}
use rolebasedgroup.Discovery.{put_env, put_envs, insert_env, sort_envs, merge_env}

-- The first variable of a name.
pub find_env : List EnvVar → String → Option EnvVar
find_env [] name = none
find_env (e ∷ l) name = if str_eq e.name name then some e else find_env l name

abbrev pub or_else : Option EnvVar → Option EnvVar → Option EnvVar
or_else none o = o
or_else (some e) o = some e

-- The last variable of a name, which is the one that counts in a container.
pub last_env : List EnvVar → String → Option EnvVar
last_env [] name = none
last_env (e ∷ l) name = or_else (last_env l name) (if str_eq e.name name then some e else none)

str_le_refl : (s : String) → str_le s s ≡ true
str_le_refl s = ground (arith, str_eq_refl s)

find_env-put_env :
    (e : EnvVar) (m : List EnvVar) (name : String)
    → find_env (put_env e m) name ≡ (if str_eq e.name name then some e else find_env m name)
unfolding find_env put_env
find_env-put_env e [] name = refl
find_env-put_env e (x ∷ m) name =
    ground (
      arith,
      eq_iff x.name e.name,
      eq_iff x.name name,
      eq_iff e.name name,
      find_env-put_env e m name,
    )

find_env-put_envs :
    (l m : List EnvVar) (name : String)
    → find_env (put_envs l m) name ≡ or_else (last_env l name) (find_env m name)
unfolding put_envs last_env
find_env-put_envs [] m name = refl
find_env-put_envs (e ∷ l) m name =
    ground (arith, find_env-put_envs l (put_env e m) name, find_env-put_env e m name)

find_env-insert_env :
    (e : EnvVar) (l : List EnvVar) (name : String)
    → find_env (insert_env e l) name ≡ (if str_eq e.name name then some e else find_env l name)
unfolding find_env insert_env
find_env-insert_env e [] name = refl
find_env-insert_env e (x ∷ l) name =
    ground (
      arith,
      eq_iff x.name name,
      eq_iff e.name name,
      str_le_refl name,
      find_env-insert_env e l name,
    )

find_env-sort_envs :
    (l : List EnvVar) (name : String) → find_env (sort_envs l) name ≡ find_env l name
unfolding find_env sort_envs
find_env-sort_envs [] name = refl
find_env-sort_envs (e ∷ l) name =
    ground (arith, find_env-insert_env e (sort_envs l) name, find_env-sort_envs l name)

-- In the environment that is merged, a name has the injected variable if there is one of that name,
-- and the last of the container's own otherwise, so that nothing else is lost or changed.
pub merge_env-find :
    (new existing : List EnvVar) (name : String)
    → find_env (merge_env new existing) name ≡ or_else (last_env new name) (last_env existing name)
unfolding merge_env find_env last_env
merge_env-find new existing name = ground (
  arith,
  find_env-sort_envs (put_envs new (put_envs existing [])) name,
  find_env-put_envs new (put_envs existing []) name,
  find_env-put_envs existing [] name,
)
