-- ===== src/Common/Text.antt =====
-- Attributes that are texts.
use Prim.Native.String.{String}
use text.Mathlib.Text.{◌==◌ as str_eq}
use mathlib.Core.Option.{Option, none, some}
use package.net_frame.Common.Tests.{if◌then◌else◌}

-- An attribute that is missing or empty is false.
abbrev pub truthy : Option String → Option String
truthy none = none
truthy (some t) = if str_eq t "" then none else some t

-- `data('…') ? data('…') : s`
abbrev pub text_or : Option String → String → String
text_or o s = elim (truthy o) [ none ↦ s | some t ↦ t ]
