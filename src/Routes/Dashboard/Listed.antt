-- ===== src/Routes/Dashboard/Listed.antt =====
-- The ids under which a listed chain is found.
use signbyte_bff.Base.{String, ◌≢◌, ◌≡◌, ◌⊎◌, List, [], ◌∷◌, arith, eq_iff, In}
use signbyte_bff.Clients.Types.{ChainRow}
use signbyte_bff.Routes.Dashboard.{live}

-- The chain is addressed by `id`, its root or its head. An empty id names no chain.
abbrev pub IsAddressed : ChainRow → String → Type 0
IsAddressed c id = (id ≢ "") × ((c.chain_root_id ≡ id) ⊎ (c.id ≡ id))

-- Some listed chain is addressed by the document's id.
abbrev pub IsListed : List ChainRow → String → Type 0
IsListed [] id = ⊥
IsListed (c ∷ chains) id = IsAddressed c id ⊎ IsListed chains id

pub live→IsListed :
    (chains : List ChainRow) (id : String) → In id (live chains) → IsListed chains id
unfolding live
live→IsListed [] id m = m
live→IsListed (c ∷ chains) id m =
    ground (arith, eq_iff c.id "", eq_iff c.chain_root_id "", live→IsListed chains id)

pub IsListed→live :
    (chains : List ChainRow) (id : String) → IsListed chains id → In id (live chains)
unfolding live
IsListed→live [] id m = m
IsListed→live (c ∷ chains) id m =
    ground (arith, eq_iff c.id "", eq_iff c.chain_root_id "", IsListed→live chains id)
