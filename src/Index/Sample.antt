-- ===== src/Index/Sample.antt =====
-- A small storage and deserialiser, with which the loaders and the queries of
-- src/cfg_center/ run: a rule, a link and a resource in the namespace `/`.
use mathlib.Core.Path.{subst}
use eafcc_core.Prelude.{◌≡◌, refl, false, Option, none, some, List, [], ◌∷◌}
use eafcc_core.Text.{Text, text, strip_prefix}
use eafcc_core.Error.{StorageBackendError}
use eafcc_core.Run.{Run, ok, panicked, ok-injective}
use eafcc_core.Model.Loader.{SerdeJson}
use eafcc_core.Storage
use eafcc_core.Storage.{
  VersionItem, DirItem, WalkRetCtl, next, skip_current_node, stop_walking, Called, returned, failed,
  StorageBackend,
}
use eafcc_core.Storage.{CallsOnly}

-- An object is its text: of a rule the condition, of a resource the value of the key `k`.
abbrev pub sample_serde : SerdeJson
sample_serde = record {
  JsonValue = Text;
  root_from_slice = λ raw. ok (record { version = 1; kind = []; meta = []; spec = raw });
  rule_meta_from_value = λ v. ok (record { desc = []; tags = [] });
  link_meta_from_value = λ v. ok (record { desc = []; tags = [] });
  link_spec_from_value = λ v. ok (record {
    pri = 0x40400000;
    is_neg = false;
    ver = [];
    rule = text "path:/r";
    reses = text "path:/a" ∷ [];
  });
  res_meta_from_value = λ v. ok (record { desc = []; tags = [] });
  res_spec_from_value = λ v.
      ok (record { content_type = text "text"; key = text "k"; item_data = v; schema = [] } ∷ []);
  pointer = λ v path. some v;
  as_str = λ v. some v;
}

abbrev file : Text → Text → DirItem
file abs_path raw = record { abs_path = abs_path; is_dir = false; hash = raw }

abbrev sample_files : List DirItem
sample_files =
    file (text "/rules/r") (text "a==\"1\"")
    ∷ file (text "/links/l") []
    ∷ file (text "/reses/a") (text "v")
    ∷ []

module _ {S : Type 0} (path : Text) (cb : DirItem → S → Called S) where
  -- Whether the file is below the path.
  abbrev visit : DirItem → Option Text → S → Called S
  visit item none s = returned s next
  visit item (some below) s = cb item s

  abbrev after_visit : Called S → (S → Run StorageBackendError S) → Run StorageBackendError S
  after_visit (returned s next) go_on = go_on s
  after_visit (returned s skip_current_node) go_on = go_on s
  after_visit (returned s stop_walking) go_on = ok s
  after_visit (failed s e) go_on = panicked
  after_visit Storage.panicked go_on = panicked

  abbrev walk : List DirItem → S → Run StorageBackendError S
  walk [] s = ok s
  walk (item ∷ items) s = after_visit (visit item (strip_prefix path item.abs_path) s) (walk items)

abbrev pub first_version : VersionItem
first_version = record { name = text "v1"; id = 1 ∷ [] }

abbrev pub sample_backend : StorageBackend
sample_backend = record {
  get_obj_by_hash = λ hash. ok hash;
  walk_dir = λ version path cb s. walk path cb sample_files s;
  get_diff_list = λ old new ns. ok (text "/reses/a" ∷ []);
  get_current_version = ok first_version;
  set_update_cb = ok tt;
}

module _ {S : Type 0} (P : S → Type 0) (path : Text) (cb : DirItem → S → Called S)
    (keeps : (item : DirItem) (t t' : S) (ctl : WalkRetCtl)
      → P t
      → cb item t ≡ returned t' ctl
      → P t') where
  same_state : (t t' : S) (ctl : WalkRetCtl) → returned t next ≡ returned t' ctl → t ≡ t'
  same_state t t' ctl e = cc

  visit-keeps :
      (item : DirItem) (o : Option Text) (t t' : S) (ctl : WalkRetCtl)
      → P t
      → visit path cb item o t ≡ returned t' ctl
      → P t'
  visit-keeps item none t t' ctl p e = subst P (same_state t t' ctl e) p
  visit-keeps item (some below) t t' ctl p e = keeps item t t' ctl p e

  after_visit-keeps :
      (c : Called S) (go_on : S → Run StorageBackendError S) (s' : S)
      → ((t : S) (ctl : WalkRetCtl) → c ≡ returned t ctl → P t)
      → ((t : S) → P t → go_on t ≡ ok s' → P s')
      → after_visit path cb c go_on ≡ ok s'
      → P s'
  after_visit-keeps (returned s next) go_on s' p later e = later s (p s next refl) e
  after_visit-keeps (returned s skip_current_node) go_on s' p later e =
      later s (p s skip_current_node refl) e
  after_visit-keeps (returned s stop_walking) go_on s' p later e =
      subst P (ok-injective e) (p s stop_walking refl)
  after_visit-keeps (failed s x) go_on s' p later e = cc
  after_visit-keeps Storage.panicked go_on s' p later e = cc

  walk-keeps : (items : List DirItem) (s s' : S) → P s → walk path cb items s ≡ ok s' → P s'
  walk-keeps [] s s' p e = subst P (ok-injective e) p
  walk-keeps (item ∷ items) s s' p e =
      after_visit-keeps (visit path cb item (strip_prefix path item.abs_path) s)
        (walk path cb items) s'
        (λ t ctl h. visit-keeps item (strip_prefix path item.abs_path) s t ctl p h)
        (λ t q h. walk-keeps items t s' q h) e

pub sample_calls : CallsOnly sample_backend
sample_calls = record {
  keeps =
      λ P version path cb s s' kept failed_ p e. walk-keeps P path cb kept sample_files s s' p e;
}
