-- ===== src/Storage.antt =====
-- GLib's texts and files as interfaces, with what GLib documents of them as laws.
use upower.Prelude.{
  ℕ, ◌≡◌, refl, ◌≢◌, Bool, true, false, List, [], ◌∷◌, ◌++◌, Option, none, some, All, arith, ◌==◌,
  if◌then◌else◌,
}
use upower.Prelude.Text.{Text, text_eq, text_eq_iff}

-- A text without a byte.
abbrev pub Free : ℕ → Text → Type 0
Free sep = All (λ c. c ≢ sep)

-- `g_strsplit` with no limit on the parts, and a separator of one byte.
pub record Splitter : Type 0 where
  pub strsplit : ℕ → Text → List Text

-- The empty text has no part at all; any other has one part more than separators.
pub record IsSplitter ⦃s : Splitter⦄ : Type 0 where
  pub split-nil : (sep : ℕ) → s.strsplit sep [] ≡ []
  pub split_free : (sep : ℕ) (a : Text) → Free sep a → a ≢ [] → s.strsplit sep a ≡ a ∷ []
  pub split_end : (sep : ℕ) (a : Text) → Free sep a → s.strsplit sep (a ++ (sep ∷ [])) ≡ a ∷ [] ∷ []
  pub split_sep :
      (sep : ℕ) (a b : Text)
      → Free sep a
      → b ≢ []
      → s.strsplit sep (a ++ (sep ∷ b)) ≡ a ∷ s.strsplit sep b

-- `%.3f` of printf, and `atof`.
pub record FloatText (D : Type 0) : Type 0 where
  pub format_3f : D → Text
  pub atof : Text → D

-- Paths, and the contents of files. A write that fails leaves the files as they were.
pub record Files (S : Type 0) : Type 0 where
  pub build_filename : Text → Text → Text
  pub get_contents : Text → S → Option Text
  pub file_exists : Text → S → Bool
  pub set_contents : Text → Text → S → Option S
  pub mkdir_with_parents : Text → S → S

pub record IsFiles (S : Type 0) ⦃f : Files S⦄ : Type 0 where
  pub get-set :
      (path text : Text) (s t : S)
      → f.set_contents path text s ≡ some t
      → f.get_contents path t ≡ some text
  pub exists-set :
      (path text : Text) (s t : S)
      → f.set_contents path text s ≡ some t
      → f.file_exists path t ≡ true
  pub get-set_ne :
      (path text : Text) (s t : S) (other : Text)
      → f.set_contents path text s ≡ some t
      → path ≢ other
      → (f.get_contents other t ≡ f.get_contents other s)
        × (f.file_exists other t ≡ f.file_exists other s)
  pub build_filename_inj :
      (dir a b : Text) → f.build_filename dir a ≡ f.build_filename dir b → a ≡ b

-- The laws can be met: a splitter that runs, and files in memory.
cons_head : ℕ → List Text → List Text
cons_head c [] = (c ∷ []) ∷ []
cons_head c (t ∷ ts) = (c ∷ t) ∷ ts

parts : ℕ → Text → List Text
parts sep [] = [] ∷ []
parts sep (c ∷ cs) = let rest = parts sep cs in if c == sep then [] ∷ rest else cons_head c rest

unfoldable pub split : ℕ → Text → List Text
unfolding parts cons_head
split sep [] = []
split sep (c ∷ cs) = parts sep (c ∷ cs)

instance abbrev pub plain_splitter : Splitter
unfolding split
plain_splitter = record { strsplit = split }

parts-Free : (sep : ℕ) (a : Text) → Free sep a → parts sep a ≡ a ∷ []
unfolding parts cons_head
parts-Free sep [] h = refl
parts-Free sep (c ∷ cs) (h, hs) = ground (arith, parts-Free sep cs hs)

parts_sep : (sep : ℕ) (a b : Text) → Free sep a → parts sep (a ++ (sep ∷ b)) ≡ a ∷ parts sep b
unfolding parts cons_head
parts_sep sep [] b h = ground arith
parts_sep sep (c ∷ cs) b (h, hs) = ground (arith, parts_sep sep cs b hs)

split-parts : (sep : ℕ) (a b : Text) → split sep (a ++ (sep ∷ b)) ≡ parts sep (a ++ (sep ∷ b))
unfolding split
split-parts sep [] b = refl
split-parts sep (c ∷ cs) b = refl

split_some : (sep : ℕ) (b : Text) → b ≢ [] → split sep b ≡ parts sep b
unfolding split
split_some sep [] h = absurd (h refl)
split_some sep (c ∷ cs) h = refl

pub plain-IsSplitter : IsSplitter
unfolding split
plain-IsSplitter = record {
  split-nil = λ sep. refl;
  split_free = λ sep a h some. rw (split_some sep a some) (parts-Free sep a h);
  split_end = λ sep a h. rw (split-parts sep a []) (parts_sep sep a [] h);
  split_sep =
      λ sep a b h some. rw (split-parts sep a b, split_some sep b some) (parts_sep sep a b h);
}

pub record Memory : Type 0 where
  pub at : Text → Option Text

abbrev is_some : Option Text → Bool
is_some none = false
is_some (some t) = true

instance abbrev pub memory_files : Files Memory
memory_files = record {
  build_filename = λ dir name. dir ++ (b'/' ∷ name);
  get_contents = λ path m. m.at path;
  file_exists = λ path m. is_some (m.at path);
  set_contents =
      λ path text m. some (record { at = λ p. if text_eq p path then some text else m.at p });
  mkdir_with_parents = λ path m. m;
}

append_inj : (a b c : Text) → a ++ b ≡ a ++ c → b ≡ c
append_inj [] b c e = e
append_inj (x ∷ a) b c e = append_inj a b c (cc)

pub memory-IsFiles : IsFiles Memory
memory-IsFiles = record {
  get-set = λ path text s t e. ground (arith, text_eq_iff path path);
  exists-set = λ path text s t e. ground (arith, text_eq_iff path path);
  get-set_ne = λ path text s t other e ne. ground (arith, text_eq_iff other path);
  build_filename_inj = λ dir a b e. cc (append_inj dir (b'/' ∷ a) (b'/' ∷ b) e);
}
