-- ===== src/Web/Status.antt =====
-- apps/web/src/lib/status.ts: the tones, glyphs and times that the pages show. A time is the number of
-- milliseconds of its `Date`; a text that is no time is `some none`, and null, undefined or the empty
-- text is `none`.
pub mod Ages
use Prim.Native.String.{◌++◌}
use wa_ops.Base.{
  ℕ, ◌-◌, ◌*◌, ◌/◌, Bool, true, false, String, Option, none, some, ltb, str_eq, if◌then◌else◌, ◌||◌,
}

-- StatusTone
pub data Tone : Type 0 where
  ok info warning critical neutral : Tone

unfoldable pub severity_tone : String → Tone
severity_tone severity =
    if str_eq severity "critical"
    then critical
    else if str_eq severity "high" || str_eq severity "warning"
    then warning
    else if str_eq severity "info"
    then info
    else neutral

unfoldable pub incident_status_tone : String → Tone
incident_status_tone status =
    if str_eq status "resolved" || str_eq status "closed"
    then neutral
    else if str_eq status "acknowledged"
    then info
    else if str_eq status "detected"
    then critical
    else neutral

-- null and undefined are `none`.
unfoldable pub resource_status_tone : Option String → Tone
resource_status_tone none = neutral
resource_status_tone (some status) =
    if str_eq status "online" || (str_eq status "active" || str_eq status "available")
    then ok
    else if str_eq status "degraded" || (str_eq status "stale" || str_eq status "attention")
    then warning
    else if str_eq status "down" || str_eq status "unreachable"
    then critical
    else if str_eq status "pending"
    then info
    else neutral

unfoldable pub name_of_tone : Tone → String
name_of_tone ok = "ok"
name_of_tone info = "info"
name_of_tone warning = "warning"
name_of_tone critical = "critical"
name_of_tone neutral = "neutral"

unfoldable pub badge_class : Tone → String
unfolding name_of_tone
badge_class tone = "badge " ++ name_of_tone tone

unfoldable pub tone_glyph : Tone → String
tone_glyph ok = "●"
tone_glyph info = "●"
tone_glyph warning = "▲"
tone_glyph critical = "■"
tone_glyph neutral = "○"

-- What relativeTime writes: a number with its unit, or one of the two words.
pub data AgeUnit : Type 0 where
  seconds minutes hours days : AgeUnit

pub data Age : Type 0 where
  nunca unknown : Age
  ago : (count : ℕ) (unit : AgeUnit) → Age

-- `Math.floor` of the milliseconds by 1000, at least 0.
abbrev seconds_since : ℕ → ℕ → ℕ
seconds_since now at = (now - at) / 1000

unfoldable pub age_of : ℕ → Age
age_of s =
    if ltb s 60
    then ago s seconds
    else if ltb (s / 60) 60
    then ago (s / 60) minutes
    else if ltb (s / 60 / 60) 48
    then ago (s / 60 / 60) hours
    else ago (s / 60 / 60 / 24) days

unfoldable pub relative_time : Option (Option ℕ) → ℕ → Age
unfolding age_of
relative_time none now = nunca
relative_time (some none) now = unknown
relative_time (some (some at)) now = age_of (seconds_since now at)

unfoldable pub is_stale : Option (Option ℕ) → ℕ → Bool
is_stale none now = true
is_stale (some none) now = true
is_stale (some (some at)) now = ltb (5 * 60000) (now - at)
