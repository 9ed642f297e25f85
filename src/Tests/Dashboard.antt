-- ===== src/Tests/Dashboard.antt =====
-- The library view of routes/dashboard.go on two envelopes over shared documents.
use signbyte_bff.Base.{
  ℕ, String, ◌≡◌, ◌≢◌, refl, arith, eq_iff, ◌↔◌, ◌⊎◌, inl, inr, List, [], ◌∷◌, pos, true, false, In,
  text_lt,
}
use signbyte_bff.Clients.Types.{Summary, ChainRow}
use signbyte_bff.Routes.Dashboard.{
  acted_later, latest_per_chain, standalone, without_destroyed_chains, with_retention,
}
use signbyte_bff.Routes.Dashboard.Homes.{IsHome}
use signbyte_bff.Routes.Dashboard.Latest.{
  HasRow, latest_per_chain_iff, latest_per_chain-covers, latest_per_chain_shared,
}
use signbyte_bff.Routes.Dashboard.Rows.{IsCovered, standalone_iff}
use signbyte_bff.Routes.Dashboard.Destroyed.{IsKept, without_destroyed_chains_iff}
use signbyte_bff.Routes.Dashboard.Soonest.{IsSoonest, IsUnknown, with_retention-IsSoonest}

abbrev summary : String → String → String → List String → Summary
summary id status updated docs = record {
  id = id;
  title = "contract";
  status = status;
  order_policy = "parallel";
  version = pos 1;
  created_at = "2026-01-01";
  updated_at = updated;
  doc_ids = docs;
  slot_count = pos 1;
  signed_count = pos 0;
  your_turn = false;
  retention_until = "";
}

abbrev older : Summary
older = summary "a" "active" "2026-01-02" ("d1" ∷ "d2" ∷ [])

abbrev newer : Summary
newer = summary "b" "completed" "2026-01-03" ("d2" ∷ [])

abbrev chain : String → ℕ → ChainRow
chain id until = record {
  chain_root_id = id;
  id = id;
  kind = "pdf";
  status = "stored";
  filename = "a.pdf";
  mime = "application/pdf";
  size = pos 10;
  has_signatures = false;
  platform_signed = false;
  result_frozen = false;
  retention_until = until;
  chain_created_at = 1;
  created_at = 1;
  updated_at = 1;
  preservation_class = "";
  inner_files = [];
}

latest_per_chain_iff_example :
    In older (latest_per_chain (newer ∷ older ∷ []))
    ↔ (In older (newer ∷ older ∷ []) × HasRow (newer ∷ older ∷ []) older)
latest_per_chain_iff_example = latest_per_chain_iff (newer ∷ older ∷ []) older

latest_per_chain-covers_example :
    (h : Summary) × In h (latest_per_chain (newer ∷ older ∷ []))
    × IsHome (newer ∷ older ∷ []) "d2" h
latest_per_chain-covers_example =
    latest_per_chain-covers (newer ∷ older ∷ []) older "d2" (inr (inl refl)) (inr (inl refl))

d1-ne-d2 : ◌≢◌ {A = String} "d1" "d2"
d1-ne-d2 = ground (arith, eq_iff "d1" "d2")

later : acted_later newer older ≡ true
unfolding acted_later text_lt
later = refl

latest_per_chain_shared_example :
    In older (latest_per_chain (newer ∷ older ∷ []))
    × In newer (latest_per_chain (newer ∷ older ∷ []))
latest_per_chain_shared_example =
    latest_per_chain_shared older newer "d1" "d2" refl refl d1-ne-d2 later

standalone_iff_example : In (chain "d3" 0) (standalone (older ∷ []) [] (chain "d3" 0 ∷ [])) ↔ (
    In (chain "d3" 0) (chain "d3" 0 ∷ [])
    × (¬ (IsCovered (older ∷ []) [] "d3"))
    × (¬ (IsCovered (older ∷ []) [] "d3")))
standalone_iff_example = standalone_iff (older ∷ []) [] (chain "d3" 0 ∷ []) (chain "d3" 0)

listed : ◌≢◌ {A = List ChainRow} (chain "d1" 9 ∷ []) []
listed p = cc

without_destroyed_chains_iff_example :
    In newer (without_destroyed_chains (newer ∷ []) (chain "d1" 9 ∷ []))
    ↔ (In newer (newer ∷ []) × IsKept (chain "d1" 9 ∷ []) newer)
without_destroyed_chains_iff_example =
    without_destroyed_chains_iff (newer ∷ []) (chain "d1" 9 ∷ []) newer listed

abbrev stamp_text : ℕ → String
stamp_text n = "2026-02-01"

with_retention-IsSoonest_example :
    (IsUnknown (chain "d1" 9 ∷ []) ("d1" ∷ "d2" ∷ [])
      × In older (with_retention stamp_text (older ∷ []) (chain "d1" 9 ∷ [])))
    ⊎ ((t : ℕ) × IsSoonest (chain "d1" 9 ∷ []) ("d1" ∷ "d2" ∷ []) t
        × In
            (record older { retention_until = stamp_text t })
            (with_retention stamp_text (older ∷ []) (chain "d1" 9 ∷ [])))
with_retention-IsSoonest_example =
    with_retention-IsSoonest stamp_text (older ∷ []) (chain "d1" 9 ∷ []) older listed (inl refl)
