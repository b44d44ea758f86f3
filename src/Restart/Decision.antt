-- ===== src/Restart/Decision.antt =====
-- When a pod of internal/controller/workloads/pod_controller.go restarts its group.
use rolebasedgroup.Prelude.{
  String, true, false, ◌||◌, some, ◌≡◌, ◌↔◌, refl, str_eq, Result, ok, err, panic, arith, inl, inr,
  Bool-cases,
}
use rolebasedgroup.Api.{RoleSpec, RoleBasedGroup}
use rolebasedgroup.Api.Helper.{
  set_name_label_key, set_role_label_key, recreate_rbg_on_pod_restart, label, get_role,
}
use rolebasedgroup.Objects.{Pod}
use rolebasedgroup.Client.{Client, Trace}
use rolebasedgroup.Status.{restart_condition_true}
use rolebasedgroup.Restart.{container_restarted, pod_deleted, Request, restart_request, pod_to_rbg}

-- The pod carries the name of a group; one of its containers restarted, or it is deleted; the group
-- exists, is not deleted and does not restart already; the pod's role is one of the group, with the
-- policy to recreate the group; and the request is for that group.
pub record Restarts (client : Client) (pod : Pod) (t : Trace) (req : Request) : Type 0 where
  pub group : RoleBasedGroup
  pub role : RoleSpec
  pub labelled : str_eq (label pod.meta.labels set_name_label_key) "" ≡ false
  pub failed : (container_restarted pod || pod_deleted pod) ≡ true
  pub found :
      client.get_group t pod.meta.namespace (label pod.meta.labels set_name_label_key) ≡ ok group
  pub alive : group.meta.deleting ≡ false
  pub idle : restart_condition_true group.status.conditions ≡ false
  pub role_labelled : str_eq (label pod.meta.labels set_role_label_key) "" ≡ false
  pub role_found : get_role group (label pod.meta.labels set_role_label_key) ≡ ok role
  pub policy : str_eq role.restart_policy recreate_rbg_on_pod_restart ≡ true
  pub request :
      req
      ≡ record { namespace = group.meta.namespace; name = label pod.meta.labels set_name_label_key }

module _ (client : Client) (pod : Pod) (t : Trace) (req : Request) where
  abbrev group_name : String
  group_name = label pod.meta.labels set_name_label_key

  abbrev role_name : String
  role_name = label pod.meta.labels set_role_label_key

  sound_role :
      (rbg : RoleBasedGroup) (r : Result RoleSpec)
      → get_role rbg role_name ≡ r
      → str_eq group_name "" ≡ false
      → (container_restarted pod || pod_deleted pod) ≡ true
      → client.get_group t pod.meta.namespace group_name ≡ ok rbg
      → restart_request pod group_name (ok rbg) ≡ some req
      → Restarts client pod t req
  unfolding restart_request
  sound_role rbg (ok role) q labelled failed found e = record {
    group = rbg;
    role = role;
    labelled = labelled;
    failed = failed;
    found = found;
    alive = ground arith;
    idle = ground arith;
    role_labelled = ground arith;
    role_found = q;
    policy = ground arith;
    request = ground arith;
  }
  sound_role rbg (err x) q labelled failed found e = absurd (ground arith)
  sound_role rbg panic q labelled failed found e = absurd (ground arith)

  sound_group :
      (r : Result RoleBasedGroup)
      → client.get_group t pod.meta.namespace group_name ≡ r
      → str_eq group_name "" ≡ false
      → (container_restarted pod || pod_deleted pod) ≡ true
      → restart_request pod group_name r ≡ some req
      → Restarts client pod t req
  unfolding restart_request
  sound_group (ok rbg) q labelled failed e =
      sound_role rbg (get_role rbg role_name) refl labelled failed q e
  sound_group (err x) q labelled failed e = absurd (cc)
  sound_group panic q labelled failed e = absurd (cc)

  tested :
      (pod_to_rbg client pod t).0 ≡ some req
      → (str_eq group_name "" ≡ false)
        × ((container_restarted pod || pod_deleted pod) ≡ true)
        × (restart_request pod group_name (client.get_group t pod.meta.namespace group_name)
            ≡ some req)
  unfolding pod_to_rbg
  tested e = elim (Bool-cases (str_eq group_name "")) [
    | inl a ↦ absurd (cc (rw a at e))
    | inr a ↦ elim (Bool-cases (container_restarted pod || pod_deleted pod)) [
      | inl b ↦ (a, b, rw (a, b) at e)
      | inr b ↦ absurd (cc (rw (a, b) at e))
    ]
  ]

  sound : (pod_to_rbg client pod t).0 ≡ some req → Restarts client pod t req
  sound e =
      let (labelled, failed, q) = tested e in
      sound_group (client.get_group t pod.meta.namespace group_name) refl labelled failed q

  complete_group :
      (h : Restarts client pod t req) → restart_request pod group_name (ok h.group) ≡ some req
  unfolding restart_request
  complete_group h = ground arith

  complete : Restarts client pod t req → (pod_to_rbg client pod t).0 ≡ some req
  unfolding pod_to_rbg
  complete h = rw (h.labelled, h.failed, h.found) (complete_group h)

  -- A request is made exactly if the pod names a group and has failed, the group exists, is neither
  -- deleted nor restarting, and the pod's role in it asks to recreate the group; it is for that
  -- group.
  pub pod_to_rbg_iff : ((pod_to_rbg client pod t).0 ≡ some req) ↔ Restarts client pod t req
  pod_to_rbg_iff = (sound, complete)
