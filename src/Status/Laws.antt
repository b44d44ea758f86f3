-- ===== src/Status/Laws.antt =====
-- What is promised of the conditions and role statuses of a group.
use mathlib.Core.Option.{some-injective}
use text.Mathlib.TextEquality.{eq_iff}
use rolebasedgroup.Prelude.{
  String, Bool, true, false, Option, none, some, List, [], ◌∷◌, ◌++◌, ◌≡◌, ◌↔◌, refl, ap, sym, ◌∙◌,
  str_eq, if◌then◌else◌, All, arith,
}
use rolebasedgroup.Prelude.Int.{ℤ, pos_part, neg_part, eq_ℤ, eq_of_parts}
use rolebasedgroup.Api.{Condition, RoleStatus, RoleBasedGroupStatus}
use rolebasedgroup.Status.{
  ready_type, restart_in_progress_type, replace_conditions, has_condition, set_condition,
  restart_condition_true, all_ready, ready_condition, merge_status, merge_statuses, updated_status,
}

-- The status of the first condition of a type.
pub condition_status : String → List Condition → Option String
condition_status t [] = none
condition_status t (c ∷ l) = if str_eq c.type t then some c.status else condition_status t l

replace-status :
    (new : Condition) (l : List Condition) (t : String)
    → condition_status t (replace_conditions new l) ≡ (
        if str_eq new.type t
        then (if has_condition new.type l then some new.status else none)
        else condition_status t l)
unfolding condition_status replace_conditions has_condition
replace-status new [] t = ground arith
replace-status new (c ∷ l) t = ground (
  arith,
  replace-status new l t,
  eq_iff new.type c.type,
  eq_iff new.type t,
  eq_iff c.type t,
  eq_iff new.status c.status,
)

snoc-status :
    (new : Condition) (l : List Condition) (t : String)
    → condition_status t (l ++ new ∷ []) ≡ elim (condition_status t l) [
      | none ↦ if str_eq new.type t then some new.status else none
      | some s ↦ some s
    ]
unfolding condition_status
snoc-status new [] t = ground arith
snoc-status new (c ∷ l) t = ground (arith, snoc-status new l t)

-- After a condition is set, its type has its status, and every other type has the status it had.
pub set_condition-status :
    (new : Condition) (l : List Condition) (t : String)
    → condition_status t (set_condition new l)
      ≡ (if str_eq new.type t then some new.status else condition_status t l)
unfolding set_condition
set_condition-status new l t =
    ground (arith, replace-status new l t, snoc-status new (replace_conditions new l) t)

restart_condition_lem :
    (l : List Condition)
    → restart_condition_true l ≡ elim (condition_status restart_in_progress_type l) [
      | none ↦ false
      | some s ↦ str_eq s "True"
    ]
unfolding restart_condition_true condition_status
restart_condition_lem [] = refl
restart_condition_lem (c ∷ l) = ground (arith, restart_condition_lem l)

-- A group restarts from the moment that the condition is set to True until it is set to another
-- status, whatever other conditions are set.
pub set_condition-restart :
    (new : Condition) (l : List Condition)
    → restart_condition_true (set_condition new l) ≡ (
        if str_eq new.type restart_in_progress_type
        then str_eq new.status "True"
        else restart_condition_true l)
set_condition-restart new l = ground (
  arith,
  restart_condition_lem (set_condition new l),
  restart_condition_lem l,
  set_condition-status new l restart_in_progress_type,
)

eq_ℤ_of_eq : (a b : ℤ) → a ≡ b → eq_ℤ a b ≡ true
eq_ℤ_of_eq a b e = ground (arith, ap pos_part e, ap neg_part e)

pub find_status : String → List RoleStatus → Option RoleStatus
find_status n [] = none
find_status n (s ∷ l) = if str_eq s.name n then some s else find_status n l

status_eq :
    (a b : RoleStatus)
    → a.name ≡ b.name
    → eq_ℤ a.replicas b.replicas ≡ true
    → eq_ℤ a.ready_replicas b.ready_replicas ≡ true
    → a ≡ b
status_eq a b e f g =
    ground (arith, eq_of_parts a.replicas b.replicas, eq_of_parts a.ready_replicas b.ready_replicas)

merge_status-find :
    (new : RoleStatus) (l : List RoleStatus) (n : String)
    → find_status n (merge_status new l) ≡ (if str_eq new.name n then some new else find_status n l)
unfolding find_status merge_status
merge_status-find new [] n = refl
merge_status-find new (old ∷ l) n = ground (
  arith,
  merge_status-find new l n,
  eq_iff new.name old.name,
  eq_iff new.name n,
  eq_iff old.name n,
  status_eq new old,
)

-- The last status of a name among the new ones, or else the old one.
pub latest_status : String → List RoleStatus → Option RoleStatus → Option RoleStatus
latest_status n [] old = old
latest_status n (s ∷ l) old = latest_status n l (if str_eq s.name n then some s else old)

-- After the update a role has the status that was gathered now, and a role for which none was
-- gathered has the status it had.
pub merge_statuses-find :
    (news olds : List RoleStatus) (n : String)
    → find_status n (merge_statuses news olds) ≡ latest_status n news (find_status n olds)
unfolding merge_statuses latest_status
merge_statuses-find [] olds n = refl
merge_statuses-find (new ∷ news) olds n =
    merge_statuses-find news (merge_status new olds) n
    ∙ ap (latest_status n news) (merge_status-find new olds n)

all_ready-All :
    (l : List RoleStatus) → all_ready l ≡ true → All (λ s. s.ready_replicas ≡ s.replicas) l
unfolding all_ready
all_ready-All [] h = tt
all_ready-All (s ∷ l) h =
    (ground (arith, eq_of_parts s.ready_replicas s.replicas), all_ready-All l (ground arith))

All-all_ready :
    (l : List RoleStatus) → All (λ s. s.ready_replicas ≡ s.replicas) l → all_ready l ≡ true
unfolding all_ready
All-all_ready [] h = refl
All-all_ready (s ∷ l) h =
    ground (arith, eq_ℤ_of_eq s.ready_replicas s.replicas h.0, All-all_ready l h.1)

ready_shown :
    (b : Bool) (l : List Condition)
    → condition_status ready_type (set_condition (ready_condition b) l)
      ≡ some (if b then "True" else "False")
unfolding ready_condition
ready_shown true l = set_condition-status (ready_condition true) l ready_type
ready_shown false l = set_condition-status (ready_condition false) l ready_type

ready_restart :
    (b : Bool) (l : List Condition)
    → restart_condition_true (set_condition (ready_condition b) l) ≡ restart_condition_true l
unfolding ready_condition
ready_restart true l = set_condition-restart (ready_condition true) l
ready_restart false l = set_condition-restart (ready_condition false) l

true_shown :
    (b : Bool) {o : Option String}
    → o ≡ some (if b then "True" else "False")
    → o ≡ some "True"
    → b ≡ true
true_shown true e h = refl
true_shown false e h =
    ground (arith, eq_iff "False" "True", some-injective "False" "True" (sym e ∙ h))

-- The status that is patched says that the group is ready exactly if every status that was gathered
-- has as many ready replicas as replicas. Whether the group restarts stays as it was.
pub updated_status-ready :
    (status : RoleBasedGroupStatus) (gathered : List RoleStatus)
    → ((condition_status ready_type (updated_status status gathered).conditions ≡ some "True")
        ↔ All (λ s. s.ready_replicas ≡ s.replicas) gathered)
      × (restart_condition_true (updated_status status gathered).conditions
          ≡ restart_condition_true status.conditions)
unfolding updated_status
updated_status-ready status gathered =
    let b = all_ready gathered in
    let shown = ready_shown b status.conditions in
    (
      (
        λ h. all_ready-All gathered (true_shown b shown h),
        λ h. shown ∙ ap (λ b. some (if b then "True" else "False")) (All-all_ready gathered h),
      ),
      ready_restart b status.conditions,
    )
