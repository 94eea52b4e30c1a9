-- ===== src/Entity/Pools/Removal.antt =====
-- `DeleteCreated`: what it deletes, and what it leaves.
use vcmp_lua.Entity.History.Independence.{in_range-step, slot-step, step-SameShape}
use vcmp_lua.Entity.Slots.{IsSized}
use vcmp_lua.Prelude.{
  All, ◌++◌, ◌≢◌, refl, ◌∙◌, ==_refl, zero, inr, eq_of_eq_ℤ, ◌+◌, inl, Bool-cases, suc, ◌==◌,
  negsuc, ◌-◌, [], pos, ◌||◌, ◌&&◌, ◌⊎◌, arith, ◌≡◌, if◌then◌else◌,
}
use vcmp_lua.Entity.Pools.{
  start, delete_created, delete_kinds, delete_ids, delete_one, Deletion, kind_index, release_in,
  with_pool, eq_ℤ, EntityPools, ServerPools,
}
use vcmp_lua.Entity.History.{releases, slot_step, step}
use vcmp_lua.Entity.{
  vehicle, bind, blip, checkpoint, pickup, object, created_by_us, player, pool_ids, slot, true,
  none, ◌∷◌, false, release, ℕ, Bool, EntityKind, List, SlotData, ids_from, in_range, ℤ, EntityPool,
}
use vcmp_lua.Entity.Pools.Enumeration.{within-suc, within_zero, IsOfKind, within}

-- What `Release` makes of a slot.
abbrev pub released : SlotData → SlotData
released s =
    if s.alive
    then record s { alive = false; created_by_us = false; handle = none; table = none; tag = "" }
    else s

slot-release :
    (p : EntityPool) (j id : ℤ)
    → IsSized p
    → in_range p id ≡ true
    → slot (release p j) id ≡ (if eq_ℤ j id then released (slot p id) else slot p id)
unfolding step slot_step
slot-release p j id z k = ground (arith, slot-step p id z k (releases j))

release-IsOfKind :
    (k : EntityKind) (p : EntityPool) (id : ℤ) → IsOfKind k p → IsOfKind k (release p id)
unfolding step
release-IsOfKind k p id h = ground (arith, step-SameShape p (releases id))

abbrev pub member : ℤ → List ℤ → Bool
member id [] = false
member id (j ∷ js) = eq_ℤ j id || member id js

member-ids_from :
    (test : ℤ → Bool) (n i : ℕ) (id : ℤ)
    → member id (ids_from test n i) ≡ (within n i id && test id)
unfolding ids_from
member-ids_from test zero i id = rw within_zero
member-ids_from test (suc n) i id = elim (Bool-cases (test (pos i))) [
  | inl t ↦
      rw t (
        ground (arith, member-ids_from test n (i + 1) id, within-suc n i id, eq_of_eq_ℤ (pos i) id))
  | inr t ↦
      rw t (
        ground (arith, member-ids_from test n (i + 1) id, within-suc n i id, eq_of_eq_ℤ (pos i) id))
]

-- The ids that a loop over the pool collects are those in range that pass its test.
pub member-pool_ids :
    (p : EntityPool) (test : ℤ → Bool) (id : ℤ)
    → IsSized p
    → in_range p id ≡ true
    → member id (pool_ids p test) ≡ test id
unfolding in_range
member-pool_ids p test (pos m) z r =
    ground (
      arith,
      member-ids_from test (p.traits.capacity - p.traits.first_id) p.traits.first_id (pos m),
    )
member-pool_ids p test (negsuc m) z r = ground arith

-- What the server's callbacks may do to the pools while it deletes an entity: nothing, or report
-- the deletion, which releases the slot.
pub record ReportsDeletion (api : ServerPools) : Type 0 where
  pub reported :
      (k : EntityKind) (id : ℤ) (ps : EntityPools)
      → (api.reports k id ps ≡ ps) ⊎ (api.reports k id ps ≡ with_pool ps k (release (ps.get k) id))

pub kind_index_injective : (j k : EntityKind) → (kind_index j == kind_index k) ≡ true → j ≡ k
kind_index_injective j k h = ground arith

-- `p'` is the pool of kind `k` after the releases of the ids in `ids`, seen at `id`.
record Released (k : EntityKind) (ids : List ℤ) (id : ℤ) (p p' : EntityPool) : Type 0 where
  pub slots : slot p' id ≡ (if member id ids then released (slot p id) else slot p id)
  pub of_kind : IsOfKind k p'
  pub range : in_range p' id ≡ true

Released-release :
    (k : EntityKind) (j id : ℤ) (p : EntityPool)
    → IsOfKind k p
    → in_range p id ≡ true
    → Released k (j ∷ []) id p (release p j)
unfolding step
Released-release k j id p v r = record {
  slots = ground (arith, slot-release p j id v.1 r);
  of_kind = release-IsOfKind k p j v;
  range = rw (in_range-step p (releases j) id) r;
}

Released-append :
    (k : EntityKind) (j : ℤ) (js : List ℤ) (id : ℤ) (p p' p'' : EntityPool)
    → Released k (j ∷ []) id p p'
    → Released k js id p' p''
    → Released k (j ∷ js) id p p''
Released-append k j js id p p' p'' a b = record {
  slots = ground (arith, a.slots, b.slots);
  of_kind = b.of_kind;
  range = b.range;
}

module _ (api : ServerPools) (q : ReportsDeletion api) where
  -- One round of the loop, `delete_one` and then `Release`.
  round : EntityKind → ℤ → Deletion → Deletion
  unfolding release_in delete_one
  round k id d = release_in k id (delete_one api k id d)

  get-round_ne :
      (k : EntityKind) (id : ℤ) (d : Deletion) (j : EntityKind)
      → (kind_index k == kind_index j) ≡ false
      → (round k id d).pools.get j ≡ d.pools.get j
  unfolding round with_pool
  get-round_ne k id d j h = ground (arith, q.reported k id d.pools)

  round_cases :
      (k : EntityKind) (id : ℤ) (d : Deletion)
      → ((round k id d).pools.get k ≡ release (d.pools.get k) id)
        ⊎ ((round k id d).pools.get k ≡ release (release (d.pools.get k) id) id)
  unfolding round with_pool
  round_cases k id d = ground (arith, q.reported k id d.pools, ==_refl (kind_index k))

  Released-round :
      (k : EntityKind) (j : ℤ) (d : Deletion) (id : ℤ)
      → IsOfKind k (d.pools.get k)
      → in_range (d.pools.get k) id ≡ true
      → Released k (j ∷ []) id (d.pools.get k) ((round k j d).pools.get k)
  Released-round k j d id v r =
      let p = d.pools.get k in
      let once = Released-release k j id p v r in
      elim (round_cases k j d) [
        | inl e ↦ rw e once
        | inr e ↦
            let twice = Released-release k j id (release p j) once.of_kind once.range in
            rw e (record {
              slots = ground (arith, once.slots, twice.slots);
              of_kind = twice.of_kind;
              range = twice.range;
            })
      ]

  pub get-delete_ids_ne :
      (k : EntityKind) (ids : List ℤ) (d : Deletion) (j : EntityKind)
      → (kind_index k == kind_index j) ≡ false
      → (delete_ids api k ids d).pools.get j ≡ d.pools.get j
  unfolding delete_ids round
  get-delete_ids_ne k [] d j h = refl
  get-delete_ids_ne k (id ∷ ids) d j h =
      get-delete_ids_ne k ids (round k id d) j h ∙ get-round_ne k id d j h

  Released-delete_ids :
      (k : EntityKind) (ids : List ℤ) (d : Deletion) (id : ℤ)
      → IsOfKind k (d.pools.get k)
      → in_range (d.pools.get k) id ≡ true
      → Released k ids id (d.pools.get k) ((delete_ids api k ids d).pools.get k)
  unfolding delete_ids round
  Released-delete_ids k [] d id v r = record { slots = refl; of_kind = v; range = r }
  Released-delete_ids k (j ∷ js) d id v r =
      let a = Released-round k j d id v r in
      Released-append k j js id (d.pools.get k) ((round k j d).pools.get k) _ a
        (Released-delete_ids k js (round k j d) id a.of_kind a.range)

  abbrev Other : EntityKind → EntityKind → Type 0
  Other j k = (kind_index k == kind_index j) ≡ false

  get-delete_kinds_ne :
      (ks : List EntityKind) (d : Deletion) (j : EntityKind)
      → All (Other j) ks
      → (delete_kinds api ks d).pools.get j ≡ d.pools.get j
  unfolding delete_kinds
  get-delete_kinds_ne [] d j h = refl
  get-delete_kinds_ne (k ∷ ks) d j h =
      let ids = created_by_us (d.pools.get k) in
      get-delete_kinds_ne ks (delete_ids api k ids d) j h.1 ∙ get-delete_ids_ne k ids d j h.0

  -- A kind that stands once in the list loses the entities that this runtime created.
  Released-delete_kinds :
      (before after : List EntityKind) (j : EntityKind) (d : Deletion) (id : ℤ)
      → All (Other j) before
      → All (Other j) after
      → IsOfKind j (d.pools.get j)
      → in_range (d.pools.get j) id ≡ true
      → Released j
          (created_by_us (d.pools.get j))
          id
          (d.pools.get j)
          ((delete_kinds api (before ++ j ∷ after) d).pools.get j)
  unfolding delete_kinds
  Released-delete_kinds [] after j d id b a v r =
      let ids = created_by_us (d.pools.get j) in
      rw (get-delete_kinds_ne after (delete_ids api j ids d) j a)
        (Released-delete_ids j ids d id v r)
  Released-delete_kinds (k ∷ ks) after j d id b a v r =
      let ids = created_by_us (d.pools.get k) in
      let same = get-delete_ids_ne k ids d j b.0 in
      rw (← same)
        (Released-delete_kinds ks after j (delete_ids api k ids d) id b.1 a (rw same v) (rw same r))

  Released-delete_created :
      (ps : EntityPools) (k : EntityKind) (id : ℤ)
      → k ≢ player
      → IsOfKind k (ps.get k)
      → in_range (ps.get k) id ≡ true
      → Released k (created_by_us (ps.get k)) id (ps.get k) ((delete_created api ps).pools.get k)
  unfolding delete_created
  Released-delete_created ps player id other v r = absurd (other refl)
  Released-delete_created ps vehicle id other v r =
      Released-delete_kinds [] (object ∷ pickup ∷ checkpoint ∷ blip ∷ bind ∷ []) vehicle (start ps)
        id tt (ground arith) v r
  Released-delete_created ps object id other v r =
      Released-delete_kinds (vehicle ∷ []) (pickup ∷ checkpoint ∷ blip ∷ bind ∷ []) object
        (start ps) id (ground arith) (ground arith) v r
  Released-delete_created ps pickup id other v r =
      Released-delete_kinds (vehicle ∷ object ∷ []) (checkpoint ∷ blip ∷ bind ∷ []) pickup
        (start ps) id (ground arith) (ground arith) v r
  Released-delete_created ps checkpoint id other v r =
      Released-delete_kinds (vehicle ∷ object ∷ pickup ∷ []) (blip ∷ bind ∷ []) checkpoint
        (start ps) id (ground arith) (ground arith) v r
  Released-delete_created ps blip id other v r =
      Released-delete_kinds (vehicle ∷ object ∷ pickup ∷ checkpoint ∷ []) (bind ∷ []) blip
        (start ps) id (ground arith) (ground arith) v r
  Released-delete_created ps bind id other v r =
      Released-delete_kinds (vehicle ∷ object ∷ pickup ∷ checkpoint ∷ blip ∷ []) [] bind (start ps)
        id (ground arith) tt v r

  -- At a server that reports each deletion at most by releasing its slot, in every kind but the
  -- players, DeleteCreated releases the live entities that this runtime created and leaves every
  -- other slot in range as it was.
  pub slot-delete_created :
      (ps : EntityPools) (k : EntityKind) (id : ℤ)
      → k ≢ player
      → IsOfKind k (ps.get k)
      → in_range (ps.get k) id ≡ true
      → slot ((delete_created api ps).pools.get k) id ≡ (
          if (slot (ps.get k) id).created_by_us
          then released (slot (ps.get k) id)
          else slot (ps.get k) id)
  slot-delete_created ps k id other v r =
      let mine : ℤ → Bool = λ i. (slot (ps.get k) i).alive && (slot (ps.get k) i).created_by_us in
      let in_list : member id (created_by_us (ps.get k)) ≡ mine id =
        unfold created_by_us in member-pool_ids (ps.get k) mine id v.1 r in
      ground (arith, (Released-delete_created ps k id other v r).slots, in_list)
