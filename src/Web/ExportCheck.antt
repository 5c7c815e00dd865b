-- ===== src/Web/ExportCheck.antt =====
-- apps/web/scripts/export-check.mjs: the check of the exported site. The files are an argument:
-- whether the folder is there, the text of its index, and whether the page of the status is there.
use penny_protocol.Base.{arith, ◌↔◌, not, refl, some, true, Option, ◌≡◌, Bool}
use penny_protocol.Base.Text.{codes, Text}
use penny_protocol.Base.Result.{ok_of_guard, ok_of_bind, ok_of_throw, throw_if, err, ok, Result}
use penny_protocol.Web.Search.{includes}
use penny_protocol.Base.{none, some}
use penny_protocol.Base.Result.{◌>>◌, ◌>>=◌}

pub record Exported : Type 0 where
  pub has_folder : Bool
  pub index_html : Option Text
  pub has_status : Bool

pub data ExportError : Type 0 where
  no_folder no_index lost_name lost_disclosure no_status : ExportError

unfoldable pub check_index : Text → Result ExportError (Unit {0})
check_index html = do
  throw_if (not (includes html (codes "Penny Protocol"))) ExportError.lost_name
  throw_if (not (includes html (codes "not redeemable"))) ExportError.lost_disclosure

abbrev pub read_index : Option Text → Result ExportError Text
read_index none = err no_index
read_index (some html) = ok html

unfoldable pub export_check : Exported → Result ExportError (Unit {0})
unfolding check_index
export_check out = do
  throw_if (not out.has_folder) ExportError.no_folder
  html ← read_index out.index_html
  check_index html
  throw_if (not out.has_status) ExportError.no_status

-- What the check asks of the exported site.
pub record IsExported (out : Exported) : Type 0 where
  pub html : Text
  pub folder : out.has_folder ≡ true
  pub index : out.index_html ≡ some html
  pub named : includes html (codes "Penny Protocol") ≡ true
  pub disclosed : includes html (codes "not redeemable") ≡ true
  pub status : out.has_status ≡ true

index_of_read : (o : Option Text) (html : Text) → read_index o ≡ ok html → o ≡ some html
index_of_read none html h = absurd (cc h)
index_of_read (some t) html h = cc h

-- The check passes exactly for a folder with a page of the status and an index that has the name
-- and the disclosure.
pub export_check-IsExported : (out : Exported) → (export_check out ≡ ok tt) ↔ IsExported out
unfolding export_check check_index
export_check-IsExported out = (
  λ h.
      let (folder, h1) = ok_of_throw (not out.has_folder) no_folder _ tt h in
      let (html, h2, index) = ok_of_bind (read_index out.index_html) _ tt h1 in
      let (u, h3, checked) = ok_of_bind (check_index html) _ tt h2 in
      let (named, h4) =
        ok_of_throw (not (includes html (codes "Penny Protocol"))) lost_name _ u checked in
      let disclosed =
        ok_of_guard (not (includes html (codes "not redeemable"))) lost_disclosure u h4 in
      let status = ok_of_guard (not out.has_status) no_status tt h3 in
      record {
        html = html;
        folder = ground (arith, folder);
        index = index_of_read out.index_html html index;
        named = ground (arith, named);
        disclosed = ground (arith, disclosed);
        status = ground (arith, status);
      },
  λ site. rw (site.folder, site.index, site.named, site.disclosed, site.status) refl,
)
