-- ===== src/Ldp/Patch/Effect.antt =====
-- What an N3 patch does to a graph.
use solid_pod_rs.Prelude.{
  ◌≡◌, refl, true, false, not, ◌&&◌, ◌||◌, all, filter, length, Bool-cases, all-elim,
  failing_of_all, Memᴰ, arith, inl, inr, ◌⊎◌,
}
use solid_pod_rs.Error.{precondition_failed, Result, ok, err}
use solid_pod_rs.Text.{Str}
use solid_pod_rs.Ldp.Graph.{Triple, Graph, contains, len, extend, subtract}
use solid_pod_rs.Ldp.Graph.Sets.{contains-extend, contains-subtract}
use solid_pod_rs.Ldp.Patch.{
  PatchOutcome, block_graph, where_graph, insert_block, delete_block, where_block, patched,
  apply_n3_patch,
}

-- The patch has blocks that parse as these graphs.
pub record Parses (patch : Str) (ins del wh : Graph) : Type 0 where
  pub inserts : block_graph (insert_block patch) ≡ ok ins
  pub deletes : block_graph (delete_block patch) ≡ ok del
  pub wheres : where_graph (where_block patch) ≡ ok wh

-- What the patch leaves: a triple stands in the graph exactly if the patch inserts it, or it stood
-- there and the patch does not delete it.
pub record Effect (target ins del : Graph) (out : PatchOutcome) : Type 0 where
  pub triples :
      (x : Triple)
      → contains out.graph x ≡ (contains ins x || (contains target x && not (contains del x)))
  pub counts_inserted : out.inserted ≡ len ins
  pub counts_deleted : out.deleted ≡ length (filter (contains target) del.triples)

module _ (target ins del wh : Graph) where
  abbrev pub Applies : Result PatchOutcome → Type 0
  Applies r =
      (out : PatchOutcome) × (r ≡ ok out)
      × Effect target ins del out
      × ((x : Triple) → Memᴰ x wh.triples → contains target x ≡ true)

  abbrev pub Refuses : Result PatchOutcome → Type 0
  Refuses r =
      (r ≡ err precondition_failed) × (x : Triple) × Memᴰ x wh.triples × (contains target x ≡ false)

  patched_lem : Applies (patched target ins del wh) ⊎ Refuses (patched target ins del wh)
  unfolding patched
  patched_lem = elim (Bool-cases (all (contains target) wh.triples)) [
    | inl e ↦ inl (
      record {
        graph = extend (subtract target del) ins;
        inserted = len ins;
        deleted = length (filter (contains target) del.triples);
      },
      rw e,
      record {
        triples = λ x.
            ground
              (arith, contains-extend (subtract target del) ins x, contains-subtract target del x);
        counts_inserted = refl;
        counts_deleted = refl;
      },
      λ x m. all-elim (contains target) e m,
    )
    | inr e ↦ let (x, m, q) = failing_of_all (contains target) wh.triples e in inr (rw e, x, m, q)
  ]

  -- For a patch whose blocks parse: either every triple of the `where` block stands in the target,
  -- and the patch gives a graph in which a triple stands exactly if the patch inserts it or it
  -- stood there and is not deleted, with the counts of the inserted triples and of the deleted ones
  -- that were there; or one is missing, and the answer is `precondition_failed`.
  pub apply_n3_patch_lem :
      (patch : Str)
      → Parses patch ins del wh
      → Applies (apply_n3_patch target patch) ⊎ Refuses (apply_n3_patch target patch)
  unfolding apply_n3_patch
  apply_n3_patch_lem patch h = rw (h.inserts, h.deletes, h.wheres) patched_lem
