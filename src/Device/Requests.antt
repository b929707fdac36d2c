-- ===== src/Device/Requests.antt =====
-- src/up-device.c: what clients ask a device for.
pub mod Replies
use upower.Prelude.{
  ℕ, Bool, true, false, not, List, length, map, Option, none, some, ◌==◌, if◌then◌else◌,
}
use upower.Prelude.Text.{Text, codes, text_eq}
use upower.Floating.{Floating}
use upower.History.Item.{HistoryItem}
use upower.History.Recorder.{History}
use upower.History.Graph.{HistoryType, get_data}
use upower.History.Profile.{StatsItem, get_profile_data}
use upower.Device.{Skeleton}

-- The reply to a request. The triples of a history are its items, and the pairs of the statistics
-- likewise.
pub data Reply (D : Type 0) : Type 0 where
  complete_get_history : List (HistoryItem D) → Reply D
  complete_get_statistics : List (StatsItem D) → Reply D
  not_supported no_data : Reply D
  invalid_statistics : ℕ → Reply D

-- The type of a history by its name.
unfoldable pub history_type : Text → HistoryType
history_type type_string =
    if text_eq type_string (codes "rate")
    then HistoryType.rate
    else if text_eq type_string (codes "charge")
    then HistoryType.charge
    else if text_eq type_string (codes "time-full")
    then HistoryType.time_full
    else if text_eq type_string (codes "time-empty")
    then HistoryType.time_empty
    else HistoryType.unknown

abbrev pub is_unknown : HistoryType → Bool
is_unknown HistoryType.unknown = true
is_unknown _ = false

module _ {D : Type 0} where
  abbrev pub history_reply : Option (List (HistoryItem D)) → Reply D
  history_reply none = no_data
  history_reply (some array) = complete_get_history array

  -- There are always 101 items, or the reply is an error.
  abbrev pub statistics_reply : Option (List (StatsItem D)) → Reply D
  statistics_reply none = no_data
  statistics_reply (some array) =
      if not (length array == 101)
      then invalid_statistics (length array)
      else complete_get_statistics array

-- `F` is the type of the lengths of time.
module _ (F : Type 0) ⦃g : Floating F⦄ {D : Type 0} ⦃f : Floating D⦄ where
  unfoldable pub get_history : Skeleton D → History D → Text → ℕ → ℕ → ℕ → Reply D
  unfolding history_type
  get_history s h type_string timespan resolution now =
      let type = history_type type_string in
      let array = get_data F h type timespan resolution now in
      if not s.has_history
      then not_supported
      else history_reply (if not (is_unknown type) then array else none)

module _ {D : Type 0} ⦃f : Floating D⦄ where
  abbrev pub statistics_of : History D → Text → Option (List (StatsItem D))
  statistics_of h type =
      if text_eq type (codes "charging")
      then some (get_profile_data h.data_charge true)
      else if text_eq type (codes "discharging")
      then some (get_profile_data h.data_charge false)
      else none

  unfoldable pub get_statistics : Skeleton D → History D → Text → Reply D
  get_statistics s h type =
      if not s.has_statistics then not_supported else statistics_reply (statistics_of h type)
