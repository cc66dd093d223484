-- ===== src/Surface.antt =====
-- sdk/surface/surface.go: what a survey and a focus view hold.
pub mod Orchestrator
pub mod Stream
use suctl.Prelude.{ℕ, String, Bool, false, List, [], ◌∷◌, Option, none, some, Dict}
use suctl.Protocol.{Message, sprintf}

-- A cell or a field; the colour is none where the code gives nil.
pub record Column : Type 0 where
  pub value : Message
  pub color : Option String

pub record Action : Type 0 where
  pub capability : String
  pub label : String

pub record Subject : Type 0 where
  pub id : String
  pub name : String
  pub columns : Dict Column
  pub facets : List String

-- `status_summary` is the list of its parts, joined by " · ".
pub record SurveyResponse : Type 0 where
  pub total : ℕ
  pub status_summary : List Message
  pub subjects : List Subject

pub record Field : Type 0 where
  pub label : String
  pub value : Message
  pub color : Option String

pub record Section : Type 0 where
  pub title : String
  pub fields : List Field

pub record FocusResponse : Type 0 where
  pub id : String
  pub name : String
  pub sections : List Section
  pub actions : List Action

-- Col, of a plain text.
abbrev pub col : String → Option String → Column
col s color = record { value = sprintf s []; color = color }

abbrev pub plain : String → String → Field
plain label s = record { label = label; value = sprintf s []; color = none }

abbrev pub tinted : String → String → String → Field
tinted label s color = record { label = label; value = sprintf s []; color = some color }
