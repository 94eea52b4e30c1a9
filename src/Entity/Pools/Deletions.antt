-- ===== src/Entity/Pools/Deletions.antt =====
-- `DeleteCreated`: the calls that it makes on the server.
use vcmp_lua.Entity.{bind, blip, checkpoint, pickup, object, vehicle, slot, EntityPool, ids_from}
use vcmp_lua.Prelude.{
  ap, pos, zero, ◌&&◌, ◌+◌, suc, ℕ, ◌-◌, append_assoc, sym, append-nil, arith, refl, [], map, ◌++◌,
  ◌==◌, if◌then◌else◌, ◌≡◌, All, List,
}
use vcmp_lua.Entity.Pools.{
  delete_one, start, deleted_kinds, release_in, delete_created, delete_kinds, created_by_us, false,
  Deletion, kind_index, ℤ, ◌∷◌, EntityKind, EntityPools, delete_ids, ServerPools,
}
use vcmp_lua.Entity.Pools.Removal.{get-delete_ids_ne, ReportsDeletion}

-- The ids of the live entities among n ids from i on that this runtime created, by rising id.
own_from : EntityPool → ℕ → ℕ → List ℤ
own_from p zero i = []
own_from p (suc n) i =
    let rest = own_from p n (i + 1) in
    if (slot p (pos i)).alive && (slot p (pos i)).created_by_us then pos i ∷ rest else rest

abbrev own_ids : EntityPool → List ℤ
own_ids p = own_from p (p.traits.capacity - p.traits.first_id) p.traits.first_id

-- The server calls of `DeleteCreated`: one for each entity that this runtime created, kind by kind
-- and in the order of the ids.
pub deletions : ServerPools → EntityPools → List EntityKind → List (EntityKind × ℤ)
deletions api ps [] = []
deletions api ps (k ∷ ks) =
    (if api.has_delete k then map (λ id. (k, id)) (own_ids (ps.get k)) else [])
    ++ deletions api ps ks

-- `DeleteCreated` collects these ids.
ids_from-own_from :
    (p : EntityPool) (n i : ℕ)
    → ids_from (λ id. (slot p id).alive && (slot p id).created_by_us) n i ≡ own_from p n i
unfolding ids_from own_from
ids_from-own_from p zero i = refl
ids_from-own_from p (suc n) i =
    ap
      (λ rest.
        if (slot p (pos i)).alive && (slot p (pos i)).created_by_us then pos i ∷ rest else rest)
      (ids_from-own_from p n (i + 1))

created_by_us-own_ids : (p : EntityPool) → created_by_us p ≡ own_ids p
unfolding created_by_us
created_by_us-own_ids p =
    ids_from-own_from p (p.traits.capacity - p.traits.first_id) p.traits.first_id

deletions_same :
    (api : ServerPools) (ps qs : EntityPools) (ks : List EntityKind)
    → All (λ k. qs.get k ≡ ps.get k) ks
    → deletions api qs ks ≡ deletions api ps ks
unfolding deletions
deletions_same api ps qs [] h = refl
deletions_same api ps qs (k ∷ ks) h = rw (h.0, deletions_same api ps qs ks h.1)

abbrev Distinct : List EntityKind → Type 0
Distinct [] = Unit {0}
Distinct (k ∷ ks) = All (λ j. (kind_index k == kind_index j) ≡ false) ks × Distinct ks

calls_of : ServerPools → EntityKind → List ℤ → List (EntityKind × ℤ)
calls_of api k ids = if api.has_delete k then map (λ id. (k, id)) ids else []

calls-delete_ids :
    (api : ServerPools) (k : EntityKind) (ids : List ℤ) (d : Deletion)
    → (delete_ids api k ids d).calls ≡ d.calls ++ calls_of api k ids
unfolding delete_ids calls_of
calls-delete_ids api k [] d = ground (arith, append-nil d.calls)
calls-delete_ids api k (id ∷ ids) d = ground (
  arith,
  calls-delete_ids api k ids (release_in k id (delete_one api k id d)),
  append_assoc d.calls ((k, id) ∷ []) (map (λ i. (k, i)) ids),
)

module _ (api : ServerPools) (q : ReportsDeletion api) where
  kept :
      (k : EntityKind) (ids : List ℤ) (d : Deletion) (ks : List EntityKind)
      → All (λ j. (kind_index k == kind_index j) ≡ false) ks
      → All (λ j. (delete_ids api k ids d).pools.get j ≡ d.pools.get j) ks
  kept k ids d [] h = tt
  kept k ids d (j ∷ js) h = (get-delete_ids_ne api q k ids d j h.0, kept k ids d js h.1)

  calls-delete_kinds :
      (ks : List EntityKind) (d : Deletion)
      → Distinct ks
      → (delete_kinds api ks d).calls ≡ d.calls ++ deletions api d.pools ks
  unfolding delete_kinds deletions calls_of
  calls-delete_kinds [] d h = sym (append-nil d.calls)
  calls-delete_kinds (k ∷ ks) d h =
      let ids = created_by_us (d.pools.get k) in
      let d' = delete_ids api k ids d in
      rw
        (
          calls-delete_kinds ks d' h.1,
          calls-delete_ids api k ids d,
          deletions_same api d.pools d'.pools ks (kept k ids d ks h.0),
          created_by_us-own_ids (d.pools.get k),
        )
        (append_assoc d.calls _ _)

  -- At a server that reports each deletion at most by releasing its slot, DeleteCreated asks it
  -- to delete exactly the entities that are alive and were created by this runtime, of the kinds
  -- that the server can delete: vehicles, objects, pickups, checkpoints, blips and binds in this
  -- order, and each kind by rising id.
  pub calls-delete_created :
      (ps : EntityPools)
      → (delete_created api ps).calls
        ≡ deletions api ps (vehicle ∷ object ∷ pickup ∷ checkpoint ∷ blip ∷ bind ∷ [])
  unfolding delete_created
  calls-delete_created ps = calls-delete_kinds deleted_kinds (start ps) (ground arith)
