-- ===== src/Workload/Orphans.antt =====
-- What `CleanupOrphanedWorkloads` of pkg/reconciler deletes.
use rolebasedgroup.Prelude.{
  Bool, List, [], ◌∷◌, ◌≡◌, refl, ok, not, ◌&&◌, other, arith, if◌then◌else◌,
}
use rolebasedgroup.Api.{ObjectMeta, RoleBasedGroup}
use rolebasedgroup.Client.{Client, Call, delete, Trace, perform, wrap, ◌>>◌}
use rolebasedgroup.Client.Deletions.{Calls, loop-Calls}
use rolebasedgroup.Workload.{WorkloadKind, kind_of, kind_text, has_workload, delete_orphans}

module _ (client : Client) (kind : WorkloadKind) (rbg : RoleBasedGroup) where
  -- A workload that the group controls and that no role of the group has.
  abbrev pub is_orphan : ObjectMeta → Bool
  is_orphan w =
      client.is_controlled_by w.owner_references rbg.meta.uid
      && not (has_workload (kind_text kind) rbg rbg.roles w.name)

  abbrev pub delete_call : ObjectMeta → Call
  delete_call w = delete (kind_of kind) w.namespace w.name

  end_lem : (t : Trace) → delete_orphans client kind rbg [] t ≡ (ok tt, t)
  unfolding delete_orphans
  end_lem t = refl

  round_lem :
      (w : ObjectMeta) (l : List ObjectMeta) (t : Trace)
      → delete_orphans client kind rbg (w ∷ l) t
        ≡ (if is_orphan w
              then wrap (other "delete %s error: %s") (perform client (delete_call w))
                >> delete_orphans client kind rbg l
              else delete_orphans client kind rbg l)
            t
  unfolding delete_orphans
  round_lem w l t = ground arith

  -- The clean-up deletes workloads that the group controls and that no role of the group has, in the
  -- order of the list, and makes no other call. It has deleted them all, or it ends with an error or
  -- a panic.
  pub delete_orphans-deletes :
      (l : List ObjectMeta) (t : Trace)
      → Calls is_orphan delete_call (delete_orphans client kind rbg l) l t
  delete_orphans-deletes =
      loop-Calls is_orphan delete_call client (other "delete %s error: %s")
        (delete_orphans client kind rbg) end_lem round_lem
