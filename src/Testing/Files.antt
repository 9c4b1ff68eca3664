-- ===== src/Testing/Files.antt =====
-- pkg/testing/util/file.go: an object read from a file.
use old_broker_repo.Prelude.{Text, ◌++◌, Option, some, Error, ◌⊎◌, inl, inr}

-- The object after the call, with what is returned. `read_file` is ioutil.ReadFile, `unmarshal` is
-- json.Unmarshal into the object, and `separator` is os.PathSeparator as a text.
unfoldable pub read_and_unmarshal :
    {W A : Type 0}
    → (Text → W → (Error ⊎ Text) × W)
    → (Text → A → Option Error × A)
    → Text
    → A
    → Text
    → Text
    → W
    → (Option Error × A) × W
read_and_unmarshal read_file unmarshal separator object dir file_name w =
    let (bytes, w') = read_file (dir ++ separator ++ file_name) w in
    elim bytes [ inl e ↦ ((some e, object), w') | inr text ↦ (unmarshal text object, w') ]
