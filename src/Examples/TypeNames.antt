-- ===== src/Examples/TypeNames.antt =====
-- libupower-glib/up-types.c on concrete values.
use upower.Prelude.{◌≡◌, refl, some}
use upower.Types.{DeviceKind}
use upower.Types.Names.{kind_to_string, kind_from_string}

-- The reader of kinds does not know the text of a computer.
computer_unknown : kind_from_string (some (kind_to_string DeviceKind.computer)) ≡ DeviceKind.unknown
unfolding kind_from_string kind_to_string
computer_unknown = refl
