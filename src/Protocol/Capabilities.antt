-- ===== src/Protocol/Capabilities.antt =====
-- crates/dustnet-core/src/protocol/mod.rs: the negotiation of capabilities. A bit of the set is a
-- field.
use dustnet.Base.{Bool, true, false, ◌||◌, List, [], ◌∷◌, if◌then◌else◌}
use dustnet.Base.Text.{Text, codes, text_eq}

-- `NegotiatedCapabilities`
pub record NegotiatedCapabilities : Type 0 where
  pub live_updates : Bool
  pub sessions : Bool
  pub wasm_effects : Bool
  pub page_path : Bool

abbrev pub no_capabilities : NegotiatedCapabilities
no_capabilities = record {
  live_updates = false;
  sessions = false;
  wasm_effects = false;
  page_path = false;
}

-- `bits |= …`
unfoldable pub enable : Text → NegotiatedCapabilities → NegotiatedCapabilities
enable capability bits =
    if text_eq capability (codes "live-updates")
    then record bits { live_updates = true }
    else if text_eq capability (codes "sessions")
    then record bits { sessions = true }
    else if text_eq capability (codes "wasm-effects")
    then record bits { wasm_effects = true }
    else if text_eq capability (codes "page-path")
    then record bits { page_path = true }
    else bits

-- `contains`
abbrev pub has : List Text → Text → Bool
has [] c = false
has (d ∷ ds) c = text_eq d c || has ds c

-- the loop of `negotiate`
unfoldable pub negotiate_onto :
    NegotiatedCapabilities → List Text → List Text → NegotiatedCapabilities
negotiate_onto bits [] accepted = bits
negotiate_onto bits (c ∷ offered) accepted =
    negotiate_onto (if has accepted c then enable c bits else bits) offered accepted

-- `NegotiatedCapabilities::negotiate`
unfoldable pub negotiate : List Text → List Text → NegotiatedCapabilities
negotiate offered accepted = negotiate_onto no_capabilities offered accepted
