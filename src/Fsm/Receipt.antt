-- ===== src/Fsm/Receipt.antt =====
-- What a receiver's `step` asks first of a message of crates/dlep-fsm/src/session_common.rs: a status
-- that ends the session, the grammar of the message, the format of its MAC addresses.
use dlep.Base.{
  Bool, true, false, not, if◌then◌else◌, ◌==◌, List, Option, none, some, ok, err, ◌≡◌, arith,
  nat_eq,
}
use dlep.Core.Ids.{ExtensionId, msg_session_termination}
use dlep.Core.Ipnet.{Ipnet}
use dlep.Core.Mac.{MacAddress, MacAddressFormat, IsMac, accepts}
use dlep.Core.Status.{StatusCode, terminates_session, invalid_data}
use dlep.Core.Item.{DataItem, Message}
use dlep.Fsm.Session.{fatal_status}
use dlep.Fsm.Validation.{validate_message, validate_mac_format}
use dlep.Fsm.Common.Builders.{
  status_item, build_session_update_response, build_session_termination, build_heartbeat,
  build_destination_up_response, build_destination_down_response,
  build_destination_announce_response, build_destination_down, build_destination_announce,
}
use dlep.Fsm.Common.Accepted.{validated_answers, validated_notices}

-- The status that ends the session of its receiver, which a Session Termination does not have.
abbrev pub ends_receiver : Message → Option DataItem
ends_receiver msg =
    if not (msg.message_type == msg_session_termination) then fatal_status msg.data_items else none

-- A receiver in session ends the session exactly for the status `fatal`, finds the message
-- grammatical, and finds its MAC addresses in its format exactly if `fits`.
abbrev pub Receipt :
    ⦃ip : Ipnet⦄ (msg : Message) (router : Bool) (locals : List ExtensionId)
    (format : MacAddressFormat) (fatal : Option DataItem) (fits : Bool)
    → Type 0
Receipt msg router locals format fatal fits =
    (ends_receiver msg ≡ fatal)
    × (validate_message msg router false locals ≡ ok tt)
    × (validate_mac_format msg format ≡ (if fits then ok tt else err invalid_data))

abbrev pub fatal_of : StatusCode → Option DataItem
fatal_of status = if terminates_session status then some (status_item status) else none

module _ ⦃ip : Ipnet⦄ where
  -- A response about a destination that a builder builds for a MAC address of its format's length
  -- and any status, received in session (by a modem that of a router, by a router that of a modem,
  -- by either one the response to a Destination Down): its receiver's test for a status that ends
  -- the session (fatal_status) finds that status exactly if it is one that terminates a session,
  -- message validation (validate_message) accepts it, and the check of the MAC address format
  -- accepts it exactly if the receiver's format is that of the address and gives the invalid-data
  -- status otherwise.
  pub validate-answers :
      (mac : MacAddress) (status : StatusCode) (router : Bool) (locals : List ExtensionId)
      (format : MacAddressFormat)
      → IsMac mac
      → let fatal = fatal_of status in
        let fits = accepts format mac in
        Receipt (build_destination_up_response mac status) false locals format fatal fits
        × Receipt (build_destination_announce_response mac status) true locals format fatal fits
        × Receipt (build_destination_down_response mac status) router locals format fatal fits
  unfolding build_destination_up_response build_destination_announce_response
      build_destination_down_response fatal_status validate_mac_format
  validate-answers mac status router locals format h =
      let (up, announce, down) = validated_answers mac status router locals h in
      (
        (ground arith, up, ground arith),
        (ground arith, announce, ground arith),
        (ground arith, down, ground arith),
      )

  -- The built messages with one item or none, for a MAC address of its format's length and
  -- received in session (by a modem the announcement of a destination, by either side the end of a
  -- destination, the response to a Session Update, the end of the session and a heartbeat):
  -- message validation (validate_message) accepts them; the receiver's test for a status that ends
  -- the session (fatal_status, which an end of the session is not put to) finds one only in the
  -- response to a Session Update, exactly if its status is one that terminates a session; and the
  -- check of the MAC address format accepts those about a destination exactly if the receiver's
  -- format is that of the address, gives the invalid-data status otherwise, and accepts the
  -- others.
  pub validate-notices :
      (mac : MacAddress) (status : StatusCode) (router : Bool) (locals : List ExtensionId)
      (format : MacAddressFormat)
      → IsMac mac
      → let fits = accepts format mac in
        Receipt (build_destination_announce mac) false locals format none fits
        × Receipt (build_destination_down mac status) router locals format none fits
        × Receipt (build_session_update_response status) router locals format (fatal_of status) true
        × Receipt (build_session_termination status) router locals format none true
        × Receipt build_heartbeat router locals format none true
  unfolding build_destination_announce build_destination_down build_session_update_response
      build_session_termination build_heartbeat fatal_status validate_mac_format
  validate-notices mac status router locals format h =
      let (announce, down, response, termination, beat) =
        validated_notices mac status router locals h in
      (
        (ground arith, announce, ground arith),
        (ground arith, down, ground arith),
        (ground arith, response, ground arith),
        (ground arith, termination, ground arith),
        (ground arith, beat, ground arith),
      )
