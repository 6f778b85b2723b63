-- ===== src/Fsm/Handshake.antt =====
-- The initialization of a session between the machines of crates/dlep-fsm/src/session_router.rs and
-- session_modem.rs: what each side finds in the message of the other.
pub mod ModemSide
pub mod RouterSide
pub mod Opened
use dlep.Base.{
  ℕ, leb, ◌==◌, Bool, true, false, not, ◌&&◌, List, [], ◌∷◌, ◌++◌, any, All, Option, none, some,
  if◌then◌else◌, Result, ok, err, ◌≡◌, refl, ap, arith, contains, distinct, nat_eq, octets_eq, sym,
}
use dlep.Core.Ids.{
  ExtensionId, DataItemType, MessageType, msg_session_initialization,
  msg_session_initialization_response,
}
use dlep.Core.Ipnet.{Ipnet}
use dlep.Core.Mac.{MacAddressFormat}
use dlep.Core.Metrics.{LinkMetrics, Duration}
use dlep.Core.Status.{StatusCode, success, terminates_session}
use dlep.Core.Item.{DataItem, Message, type_id_of}
use dlep.Core.Codec.Wire.{Encodable}
use dlep.Fsm.Addresses.{
  no_addrs, apply_strict, validate, canonical, canonical_addrs, unambiguous, all_consistent,
  consistent, all_absent, all_present, all_new, AddressChanges, no_changes, from_message,
  note_items, note_item,
}
use dlep.Fsm.Validation.{
  validate_message, validate_mac_format, has_refused_mac, is_expected, is_address, is_metric,
  is_allowed, required_items, announces_unrecognized,
}
use dlep.Fsm.Validation.Grammar.{single_types, address_octets, fits, ItemOk}
use dlep.Fsm.Validation.Decision.{Conforms}
use dlep.Fsm.Common.{SessionConfig, local_heartbeat_interval}
use dlep.Fsm.Common.Accepted.{Conforms-ok}
use dlep.Fsm.Common.Builders.{
  push_extensions_supported, push_metric_items, push_some, no_metrics, extract_status,
  extract_heartbeat_interval, extract_extensions_supported, merge_link_metrics, merge_items,
  merge_item, find_map,
}
use dlep.Fsm.Session.{fatal_status, unwrap_or}
use dlep.Fsm.Router.{build_session_initialization}
use dlep.Fsm.Modem.{build_session_initialization_response}

module _ ⦃ip : Ipnet⦄ where
  -- What the receiver of a message finds in it.
  pub record Found : Type 0 where
    pub kind : MessageType
    pub fatal : Option DataItem
    pub unfit : Bool
    pub single : Bool
    pub addresses : List (List ℕ)
    pub incomplete : Bool
    pub refused : Bool
    pub changes : AddressChanges
    pub status : StatusCode
    pub interval : Option Duration
    pub extensions : List ExtensionId
    pub metrics : LinkMetrics

  abbrev pub found : (router unrecognized : Bool) → MacAddressFormat → Message → Found
  found router unrecognized format msg = record {
    kind = msg.message_type;
    fatal = fatal_status msg.data_items;
    unfit = any (λ item. not (fits msg.message_type router true unrecognized item)) msg.data_items;
    single = distinct (single_types msg.data_items);
    addresses = address_octets msg.data_items;
    incomplete =
        any (λ t. not (contains (single_types msg.data_items) t)) (required_items msg.message_type);
    refused = any (has_refused_mac format) msg.data_items;
    changes = from_message msg;
    status = unwrap_or (extract_status msg) success;
    interval = extract_heartbeat_interval msg;
    extensions = unwrap_or (extract_extensions_supported msg) [];
    metrics = (merge_link_metrics msg no_metrics).1;
  }

  -- A message without a fault that announces an interval, extensions and metrics.
  abbrev pub faultless : MessageType → Duration → List ExtensionId → LinkMetrics → Found
  faultless kind interval extensions metrics = record {
    kind = kind;
    fatal = none;
    unfit = false;
    single = true;
    addresses = [];
    incomplete = false;
    refused = false;
    changes = no_changes;
    status = success;
    interval = some interval;
    extensions = extensions;
    metrics = metrics;
  }

  init_found :
      (config : SessionConfig) (unrecognized : Bool) (format : MacAddressFormat)
      (es : List ExtensionId)
      → found false unrecognized format
          (build_session_initialization (record config { advertised_extensions = es }))
        ≡ faultless msg_session_initialization (local_heartbeat_interval config) es no_metrics
  unfolding build_session_initialization push_extensions_supported fatal_status terminates_session
      is_allowed is_address required_items contains distinct from_message note_items note_item
      extract_status extract_heartbeat_interval extract_extensions_supported merge_link_metrics
      merge_items merge_item find_map local_heartbeat_interval
  init_found config unrecognized format [] = refl
  init_found config unrecognized format (x ∷ es) = refl

  abbrev with_optional :
      SessionConfig
      → LinkMetrics
      → List ExtensionId
      → Option ℕ
      → Option ℕ
      → Option ℕ
      → Option ℕ
      → SessionConfig
  with_optional config m es a b c d = record config {
    advertised_extensions = es;
    initial_metrics = record m { resources = a; rlq_rx = b; rlq_tx = c; mtu = d };
  }

  response_found :
      (config : SessionConfig) (m : LinkMetrics) (unrecognized : Bool) (format : MacAddressFormat)
      (es : List ExtensionId) (a b c d : Option ℕ)
      → found true unrecognized format
          (build_session_initialization_response (with_optional config m es a b c d))
        ≡ faultless msg_session_initialization_response
            (local_heartbeat_interval config)
            es
            (record m { resources = a; rlq_rx = b; rlq_tx = c; mtu = d })
  unfolding build_session_initialization_response push_extensions_supported push_metric_items
      push_some fatal_status terminates_session is_allowed is_address is_metric required_items
      contains distinct from_message note_items note_item extract_status extract_heartbeat_interval
      extract_extensions_supported merge_link_metrics merge_items merge_item find_map
      local_heartbeat_interval
  response_found config m unrecognized format [] none none none none = refl
  response_found config m unrecognized format [] none none none (some d) = refl
  response_found config m unrecognized format [] none none (some c) none = refl
  response_found config m unrecognized format [] none none (some c) (some d) = refl
  response_found config m unrecognized format [] none (some b) none none = refl
  response_found config m unrecognized format [] none (some b) none (some d) = refl
  response_found config m unrecognized format [] none (some b) (some c) none = refl
  response_found config m unrecognized format [] none (some b) (some c) (some d) = refl
  response_found config m unrecognized format [] (some a) none none none = refl
  response_found config m unrecognized format [] (some a) none none (some d) = refl
  response_found config m unrecognized format [] (some a) none (some c) none = refl
  response_found config m unrecognized format [] (some a) none (some c) (some d) = refl
  response_found config m unrecognized format [] (some a) (some b) none none = refl
  response_found config m unrecognized format [] (some a) (some b) none (some d) = refl
  response_found config m unrecognized format [] (some a) (some b) (some c) none = refl
  response_found config m unrecognized format [] (some a) (some b) (some c) (some d) = refl
  response_found config m unrecognized format (x ∷ es) none none none none = refl
  response_found config m unrecognized format (x ∷ es) none none none (some d) = refl
  response_found config m unrecognized format (x ∷ es) none none (some c) none = refl
  response_found config m unrecognized format (x ∷ es) none none (some c) (some d) = refl
  response_found config m unrecognized format (x ∷ es) none (some b) none none = refl
  response_found config m unrecognized format (x ∷ es) none (some b) none (some d) = refl
  response_found config m unrecognized format (x ∷ es) none (some b) (some c) none = refl
  response_found config m unrecognized format (x ∷ es) none (some b) (some c) (some d) = refl
  response_found config m unrecognized format (x ∷ es) (some a) none none none = refl
  response_found config m unrecognized format (x ∷ es) (some a) none none (some d) = refl
  response_found config m unrecognized format (x ∷ es) (some a) none (some c) none = refl
  response_found config m unrecognized format (x ∷ es) (some a) none (some c) (some d) = refl
  response_found config m unrecognized format (x ∷ es) (some a) (some b) none none = refl
  response_found config m unrecognized format (x ∷ es) (some a) (some b) none (some d) = refl
  response_found config m unrecognized format (x ∷ es) (some a) (some b) (some c) none = refl
  response_found config m unrecognized format (x ∷ es) (some a) (some b) (some c) (some d) = refl

  -- What the modem finds in the router's message, and the router in the modem's.
  pub init-Found :
      (config : SessionConfig) (unrecognized : Bool) (format : MacAddressFormat)
      → found false unrecognized format (build_session_initialization config)
        ≡ faultless msg_session_initialization
            (local_heartbeat_interval config)
            config.advertised_extensions
            no_metrics
  init-Found config unrecognized format =
      init_found config unrecognized format config.advertised_extensions

  pub response-Found :
      (config : SessionConfig) (unrecognized : Bool) (format : MacAddressFormat)
      → found true unrecognized format (build_session_initialization_response config)
        ≡ faultless msg_session_initialization_response
            (local_heartbeat_interval config)
            config.advertised_extensions
            config.initial_metrics
  response-Found config unrecognized format =
      let m = config.initial_metrics in
      response_found config m unrecognized format config.advertised_extensions m.resources m.rlq_rx
        m.rlq_tx m.mtu

  items_ok :
      (mt : MessageType) (router unrecognized : Bool) (items : List DataItem)
      → any (λ item. not (fits mt router true unrecognized item)) items ≡ false
      → All Encodable items
      → All (ItemOk mt router true unrecognized) items
  items_ok mt router unrecognized [] h e = tt
  items_ok mt router unrecognized (item ∷ items) h e =
      ((ground arith, λ _. e.0), items_ok mt router unrecognized items (ground arith) e.1)

  abbrev pub opening : Bool → MessageType
  opening true = msg_session_initialization_response
  opening false = msg_session_initialization

  -- A faultless message that can be encoded passes the validation of its receiver.
  pub validate-faultless :
      (msg : Message) (router : Bool) (locals : List ExtensionId) (format : MacAddressFormat)
      (interval : Duration) (es : List ExtensionId) (m : LinkMetrics)
      → All Encodable msg.data_items
      → ((unrecognized : Bool)
          → found router unrecognized format msg ≡ faultless (opening router) interval es m)
      → (validate_message msg router true locals ≡ ok tt) × (validate_mac_format msg format ≡ ok tt)
  unfolding is_expected validate_mac_format distinct
  validate-faultless msg router locals format interval es m e h =
      let u = any (announces_unrecognized locals) msg.data_items in
      let t : msg.message_type ≡ opening router = ap (λ (f : Found). f.kind) (h u) in
      (
        Conforms-ok msg router true locals (ground arith) (ground arith) (
          items_ok msg.message_type router u msg.data_items (ap (λ f. f.unfit) (h u)) e,
          ap (λ f. f.single) (h u),
          (rw (ap (λ (f : Found). f.addresses) (h u)) refl),
          ap (λ f. f.incomplete) (h u),
          ground arith,
        ),
        rw (ap (λ (f : Found). f.refused) (h u)) refl,
      )

  -- No changes of no addresses are applied.
  pub apply_none : (apply_strict no_changes no_addrs).0 ≡ ok tt
  unfolding apply_strict validate canonical canonical_addrs unambiguous all_consistent consistent
      all_absent all_present all_new
  apply_none = refl
