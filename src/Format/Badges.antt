-- ===== src/Format/Badges.antt =====
-- The shapes of the badges that the formatters of frontend/src/features give to the pages.
use lapor_kos.Prelude.{String}

pub record DotBadge : Type 0 where
  pub label : String
  pub color : String
  pub dot : String

abbrev pub dot_badge : String → String → String → DotBadge
dot_badge label color dot = record { label = label; color = color; dot = dot }

pub record ColorBadge : Type 0 where
  pub label : String
  pub color : String

abbrev pub color_badge : String → String → ColorBadge
color_badge label color = record { label = label; color = color }

pub record CategoryBadge : Type 0 where
  pub label : String
  pub color : String
  pub badge_bg : String
  pub badge_text : String

abbrev pub category_badge : String → String → String → String → CategoryBadge
category_badge label color badge_bg badge_text = record {
  label = label;
  color = color;
  badge_bg = badge_bg;
  badge_text = badge_text;
}

pub record BorderBadge : Type 0 where
  pub label : String
  pub bg : String
  pub text : String
  pub border : String

abbrev pub border_badge : String → String → String → String → BorderBadge
border_badge label bg text border = record { label = label; bg = bg; text = text; border = border }

pub record PeriodBadge : Type 0 where
  pub label : String
  pub bg : String
  pub text : String
  pub badge : String

abbrev pub period_badge : String → String → String → String → PeriodBadge
period_badge label bg text badge = record { label = label; bg = bg; text = text; badge = badge }

pub record PlainBadge : Type 0 where
  pub label : String
  pub badge : String

abbrev pub plain_badge : String → String → PlainBadge
plain_badge label badge = record { label = label; badge = badge }

pub record AgingBadge : Type 0 where
  pub label : String
  pub description : String
  pub badge : String

abbrev pub aging_badge : String → String → String → AgingBadge
aging_badge label description badge = record {
  label = label;
  description = description;
  badge = badge;
}

pub record CategoryStyle : Type 0 where
  pub bg : String
  pub text : String
  pub border : String

abbrev pub category_style : String → String → String → CategoryStyle
category_style bg text border = record { bg = bg; text = text; border = border }

pub record StatusStyle : Type 0 where
  pub bg : String
  pub text : String

abbrev pub status_style : String → String → StatusStyle
status_style bg text = record { bg = bg; text = text }

pub record ClassBadge : Type 0 where
  pub label : String
  pub class_name : String

abbrev pub class_badge : String → String → ClassBadge
class_badge label class_name = record { label = label; class_name = class_name }
