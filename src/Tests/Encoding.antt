-- ===== src/Tests/Encoding.antt =====
-- Identifiers, tokens and base64url text at concrete inputs.
use warder.Base.{
  length, ◌*◌, ◌≡◌, ◌↔◌, ℕ, refl, Bool, true, false, Option, none, some, List, [], ◌∷◌, ◌++◌, Text,
  lit, All, arith,
}
use warder.Csrf.{timing_safe_equal}
use warder.Csrf.Timing.{timing_safe_equal_iff}
use warder.Session.{hex_text}
use warder.Session.Hex.{hex_text-injective}
use warder.Uuid.{is_uuid, require_id}
use warder.Uuid.Laws.{Spells, IsIdUnit, is_uuid_iff, require_id_safe}
use warder.WebAuthn.{from_base64_url, to_base64_url}
use warder.WebAuthn.RoundTrip.{IsBytes, from_base64_url-to_base64_url}
use warder.Tests.{start}
use warder.World.{ok}

timing_safe_equal_iff_example :
    (timing_safe_equal (lit "07c8") (lit "07c9") ≡ true) ↔ (lit "07c8" ≡ lit "07c9")
timing_safe_equal_iff_example = timing_safe_equal_iff (lit "07c8") (lit "07c9")

abbrev id : Text
id = lit "0e37df36-f698-11e6-8dd4-cb9ced3df976"

is_uuid_iff_example : (is_uuid id ≡ true) ↔ Spells (8 ∷ 4 ∷ 4 ∷ 4 ∷ 12 ∷ []) id
is_uuid_iff_example = is_uuid_iff id

read_id : require_id id start ≡ ok id start
unfolding require_id is_uuid lit warder.Base.is_empty warder.Uuid.matches_groups
    warder.Uuid.after_hex warder.Uuid.after_dash warder.Uuid.is_hex
read_id = refl

require_id_safe_example : (id ≡ id) × (start ≡ start) × All IsIdUnit id
require_id_safe_example = require_id_safe id id start start read_id

abbrev sample : List ℕ
sample = 251 ∷ 255 ∷ 191 ∷ 0 ∷ []

sample-IsBytes : IsBytes sample
sample-IsBytes = (omega arith, (omega arith, (omega arith, (omega arith, tt))))

from_base64_url-to_base64_url_example : from_base64_url (to_base64_url sample) ≡ some sample
from_base64_url-to_base64_url_example = from_base64_url-to_base64_url sample sample-IsBytes

hex_text-injective_example : (sample ≡ sample) × (length (hex_text sample) ≡ 2 * length sample)
hex_text-injective_example = hex_text-injective sample sample sample-IsBytes sample-IsBytes refl
