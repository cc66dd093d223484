-- ===== src/Manifest.antt =====
-- sdk/manifest/manifest.go: the manifest and surface declarations, and their validation.
pub mod Surfaces
pub mod Validation
pub mod Subjects
use suctl.Prelude.{
  ◌≢◌, ◌≡◌, true, false, not, ℤ, String, Bool, List, [], ◌∷◌, ◌++◌, Option, none, some, Dict, ◌==◌,
  if◌then◌else◌,
}
use suctl.Protocol.{Message, sprintf}
use suctl.Protocol.Values.{Json}

pub record HookDecl : Type 0 where
  pub exec : String
  pub capability : String
  pub timeout_seconds : ℤ

pub record ConfigEntry : Type 0 where
  pub key : String
  pub required : Bool
  pub secret : Bool
  pub default : String
  pub description : String

pub record Requires : Type 0 where
  pub binaries : List String
  pub paths : List String
  pub sockets : List String
  pub permissions : List String
  pub capabilities : List String
  pub config : List ConfigEntry

pub record Param : Type 0 where
  pub name : String
  pub type : String
  pub required : Bool
  pub description : String
  pub default : Json

pub record Capability : Type 0 where
  pub name : String
  pub description : String
  pub async : Bool
  pub params : List Param

-- `entrypoint` is Entrypoint.Parts.
pub record Manifest : Type 0 where
  pub version : String
  pub protocol : String
  pub platform : List String
  pub author : String
  pub license : String
  pub description : String
  pub entrypoint : List String
  pub requires : Requires
  pub capabilities : List Capability
  pub hooks : Dict HookDecl

abbrev pub supported_protocol : String
supported_protocol = "1"

abbrev pub is_empty : List String → Bool
is_empty [] = true
is_empty (x ∷ xs) = false

abbrev pub error_if : Bool → Message → List Message
error_if true m = m ∷ []
error_if false m = []

-- The errors that Validate collects, in order; they are joined by "; " into the one that it
-- returns, and none means that it returns nil.
unfoldable pub validate : Manifest → List Message
validate m =
    error_if (m.version == "") (sprintf "version: required" [])
    ++ ((if m.protocol == ""
          then sprintf "protocol: required" [] ∷ []
          else error_if (not (m.protocol == supported_protocol)) (
              sprintf "protocol: unsupported version %q (core speaks %q)"
                (m.protocol ∷ supported_protocol ∷ [])))
        ++ (error_if (is_empty m.platform)
              (sprintf "platform: required, must list at least one platform" [])
            ++ (error_if (m.author == "") (sprintf "author: required" [])
                ++ (error_if (m.license == "") (sprintf "license: required" [])
                    ++ (error_if (m.description == "") (sprintf "description: required" [])
                        ++ error_if (is_empty m.entrypoint) (sprintf "entrypoint: required" []))))))

-- What a manifest needs.
pub record IsComplete (m : Manifest) : Type 0 where
  pub has_version : m.version ≢ ""
  pub speaks : m.protocol ≡ supported_protocol
  pub has_platform : m.platform ≢ []
  pub has_author : m.author ≢ ""
  pub has_license : m.license ≢ ""
  pub has_description : m.description ≢ ""
  pub has_entrypoint : m.entrypoint ≢ []
