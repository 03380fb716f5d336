-- ===== src/Tests/Pages.antt =====
-- The choice of a page at a concrete request.
use webhost.Base.{◌≡◌, ◌⊎◌, List, [], ◌∷◌, ◌++◌, some, pos, true, false}
use webhost.Qt.{QString, lit}
use webhost.Post.Form.{error_ok}
use webhost.Post.Request.{CgiPost, destroy}
use webhost.Pages.{Page, add_page, render_data, render_found, exit_with}
use webhost.Pages.Choice.{NoPage, IsFirst, asked, render_data-IsFirst}
use webhost.Tests.SampleQt.{sample}

-- A request that asks for page 1, with one uploaded file.
abbrev request : CgiPost
request = record {
  post = record {
    error = error_ok;
    values = (lit "COMMAND", lit "1") ∷ (lit "FILE", lit "/tmp/d/f") ∷ [];
    filenames = (lit "COMMAND", false) ∷ (lit "FILE", true) ∷ [];
  };
  tempdir = some (lit "/tmp/d");
  auto_delete = true;
}

abbrev page_named : QString → Page
page_named name = record {
  id = pos 0;
  menu_text = name;
  menu_ref = name;
  head = name;
  body_start = [];
  body = name;
  body_end = [];
}

abbrev two_pages : List Page
two_pages =
    add_page (add_page [] (pos 1) (page_named (lit "one"))) (pos 0) (page_named (lit "zero"))

render_data-IsFirst_example :
    ((render_data sample request two_pages []).effects ≡ destroy request)
    × (((p : Page) × (IsFirst two_pages (asked sample request) p
            ⊎ (NoPage two_pages (asked sample request) × IsFirst two_pages (pos 0) p))
          × (render_data sample request two_pages []
              ≡ render_found sample request two_pages [] (asked sample request) p))
        ⊎ (NoPage two_pages (asked sample request)
            × NoPage two_pages (pos 0)
            × (render_data sample request two_pages []
                ≡ exit_with sample request [] 500
                    (lit "Unknown page ID "
                      ++ (sample.number (asked sample request) ++ (lit " " ++ lit "received")))
                    false)))
render_data-IsFirst_example = render_data-IsFirst sample request two_pages []
