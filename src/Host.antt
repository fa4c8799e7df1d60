-- ===== src/Host.antt =====
-- internal/system/system.go: the interface through which collectors see the host, during which it is taken
-- not to change. The implementations of the interface are not modelled.
use plumbline.Base.{Str, ℕ, ◌≡◌, refl, ◌⊎◌, inl, inr, Bool, List}

-- What `errors.Is` finds in an error of the interface.
pub data ErrorClass : Type 0 where
  not_exist permission not_regular not_symlink escapes_root unsupported other_error : ErrorClass

pub record HostError : Type 0 where
  pub class : ErrorClass
  pub text : Str

pub data Answer {ℓ} (A : Type ℓ) : Type ℓ where
  answer : A → Answer A
  refuse : HostError → Answer A

pub record FileInfo : Type 0 where
  pub path : Str
  pub mode : ℕ
  pub uid : ℕ
  pub gid : ℕ
  pub size : ℕ
  pub mod_time : ℕ
  pub is_dir : Bool
  pub is_regular : Bool
  pub is_symlink : Bool
  pub dev : ℕ
  pub ino : ℕ

pub record ReadResult : Type 0 where
  pub path : Str
  pub bytes : Str
  pub size : ℕ
  pub truncated : Bool
  pub sha256 : Str

pub record DirResult : Type 0 where
  pub path : Str
  pub entries : List FileInfo
  pub truncated : Bool

-- The methods that the modelled collectors call.
pub record System : Type 0 where
  pub stat : Str → Answer FileInfo
  pub read_file : Str → ℕ → Answer ReadResult
  pub read_opaque : Str → ℕ → Answer ReadResult
  pub read_dir : Str → ℕ → Answer DirResult
  pub read_link : Str → Answer Str

pub Answer-cases {ℓ} :
    {A : Type ℓ} (a : Answer A) → ((x : A) × (a ≡ answer x)) ⊎ ((e : HostError) × (a ≡ refuse e))
Answer-cases (answer x) = inl (x, refl)
Answer-cases (refuse e) = inr (e, refl)
