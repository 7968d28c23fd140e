-- ===== src/Catalog/Messages.antt =====
-- services/backend/catalog/internal/app/mapping.go, and the messages of
-- services/backend/catalog/api/catalog/v1/catalog.proto.
use perfect_gift.Prelude.{ℕ, String, Bool, Option, List, ◌==◌, if◌then◌else◌}
use perfect_gift.Catalog.Types.{Holiday, Category, BudgetBand}

pub data DateRule : Type 0 where
  unspecified_rule fixed relative : DateRule

pub data CategoryKind : Type 0 where
  unspecified_kind gift date : CategoryKind

pub record HolidayMessage : Type 0 where
  pub id : String
  pub name : String
  pub date_rule : DateRule
  pub region : String
  pub tags : List String
  pub active : Bool

pub record CategoryMessage : Type 0 where
  pub id : String
  pub name : String
  pub kind : CategoryKind
  pub parent_id : String

pub record ListHolidaysRequest : Type 0 where
  pub region : String
  pub active : Option Bool
  pub on_or_after : String

pub record GetCategoriesResponse : Type 0 where
  pub categories : List CategoryMessage
  pub budget_bands : List BudgetBand

pub record SearchInspirationRequest (F : Type 0) : Type 0 where
  pub query_text : String
  pub query_embedding : List F
  pub filters : Option (String × String)
  pub top_k : ℕ

-- model.KindGift and model.KindDate
abbrev pub kind_gift : String
kind_gift = "gift"

abbrev pub kind_date : String
kind_date = "date"

date_rule_to_proto : String → DateRule
date_rule_to_proto s =
    if s == "fixed" then fixed else if s == "relative" then relative else unspecified_rule

unfoldable pub kind_to_proto : String → CategoryKind
kind_to_proto s = if s == kind_gift then gift else if s == kind_date then date else unspecified_kind

unfoldable pub kind_from_proto : CategoryKind → String
kind_from_proto gift = kind_gift
kind_from_proto date = kind_date
kind_from_proto unspecified_kind = ""

unfoldable pub holiday_to_proto : Holiday → HolidayMessage
unfolding date_rule_to_proto
holiday_to_proto h = record {
  id = h.id;
  name = h.name;
  date_rule = date_rule_to_proto h.date_rule;
  region = h.region;
  tags = h.tags;
  active = h.active;
}

unfoldable pub category_to_proto : Category → CategoryMessage
unfolding kind_to_proto
category_to_proto c = record {
  id = c.id;
  name = c.name;
  kind = kind_to_proto c.kind;
  parent_id = c.parent_id;
}
