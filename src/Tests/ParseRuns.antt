-- ===== src/Tests/ParseRuns.antt =====
-- Files that are parsed again with more memory.
use bmd.Prelude.{
  ◌+◌, ◌++◌, Str, sym, ◌≡◌, refl, inl, true, false, none, some, List, [], ◌∷◌, codes, arith, ltb,
  length, if◌then◌else◌,
}
use mathlib.Core.List.{append-nil}
use bmd.Parser.Sections.{CfSection}
use bmd.Parser.Mpool.{Mpool, mperr_alloc, mpool_snapshot, new_block, mpool_get_error}
use bmd.Parser.Files.{ParserContext, Child, exited, FileEnv, child}
use bmd.Parser.Parse.{fault, at_file, parse}
use bmd.Parser.Parse.EmptyList.{parse_fault}
use bmd.Parser.Parse.Lists.{AreRepeated, AreRepeated-refl, IsSeeded, Extends}
use bmd.Parser.Parse.Memory.{IsAllocator, Suffices}
use bmd.Parser.Parse.Retry.{IsRetried, parse-IsRetried}
use bmd.Tests.LoadRuns.{no_files, global_section, base_template, vm_section}

abbrev first_context : ParserContext
first_context = record {
  cfglobals = [];
  cftemplates = [];
  cfvms = [];
  cffiles = codes "/usr/local/etc/bmd.conf" ∷ [];
  cur_file = none;
}

abbrev short_pool : List Mpool
short_pool = record (new_block 4096) { error_number = mperr_alloc } ∷ []

parse_fault_example :
    parse no_files
      (codes "/usr/local/etc/bmd.conf")
      first_context
      (new_block 4096 ∷ [])
      (some 300000 ∷ [])
    ≡ fault
unfolding mpool_get_error
parse_fault_example =
    parse_fault no_files (codes "/usr/local/etc/bmd.conf") first_context
      (at_file (codes "/usr/local/etc/bmd.conf") first_context) (new_block 4096 ∷ []) short_pool
      (some 300000 ∷ []) (inl refl) refl (unfold child in refl) refl

-- A parser that needs two blocks, and leaves the error in the first one.
mark_short : List Mpool → List Mpool
mark_short [] = []
mark_short (m ∷ ms) = record m { error_number = mperr_alloc } ∷ ms

-- A machine of the first one's name is entered, and counts there.
again_vms : List CfSection → List CfSection
again_vms [] = []
again_vms (v ∷ vs) = record v { duplicate = v.duplicate + 1 } ∷ (vs ++ vm_section ∷ [])

two_blocks : ParserContext → List Mpool → Child
unfolding mark_short again_vms
two_blocks ctx pools =
    if ltb (length pools) 2
    then exited true (record ctx { cfvms = again_vms ctx.cfvms }) (mark_short pools)
    else exited false ctx pools

abbrev two_files : FileEnv
unfolding two_blocks
two_files = record no_files { yyparse = λ f ctx pools. two_blocks ctx pools }

abbrev full_context : ParserContext
full_context = record {
  cfglobals = global_section 0 (codes "/tmp/y") ∷ [];
  cftemplates = base_template ∷ [];
  cfvms = vm_section ∷ [];
  cffiles = codes "/usr/local/etc/bmd.conf" ∷ [];
  cur_file = none;
}

abbrev conf_path : Str
conf_path = codes "/usr/local/etc/bmd.conf"

again_vms-AreRepeated :
    (vs : List CfSection)
    → (kept : List CfSection) × (more : List CfSection) × AreRepeated vs kept
      × (again_vms vs ≡ kept ++ more)
unfolding again_vms
again_vms-AreRepeated [] = ([], [], tt, refl)
again_vms-AreRepeated (v ∷ vs) = (
  record v { duplicate = v.duplicate + 1 } ∷ vs,
  vm_section ∷ [],
  ((refl, omega arith), AreRepeated-refl vs),
  refl,
)

again-Extends :
    (start : ParserContext)
    → Extends start (record (at_file conf_path start) { cfvms = again_vms start.cfvms })
again-Extends start = record {
  globals = ([], sym (append-nil start.cfglobals));
  templates = (
    start.cftemplates,
    [],
    AreRepeated-refl start.cftemplates,
    sym (append-nil start.cftemplates),
  );
  vms = again_vms-AreRepeated start.cfvms;
  files = ([], sym (append-nil start.cffiles));
}

two_files-IsAllocator : IsAllocator two_files conf_path full_context
unfolding two_blocks mark_short
two_files-IsAllocator start now [] left agree run =
    let l : left ≡ [] = cc run in
    let n : now ≡ record (at_file conf_path start) { cfvms = again_vms start.cfvms } = cc run in
    rw l (rw n (tt, again-Extends start))
two_files-IsAllocator start now (m ∷ []) left agree run =
    let l : left ≡ record m { error_number = mperr_alloc } ∷ [] = cc run in
    let n : now ≡ record (at_file conf_path start) { cfvms = again_vms start.cfvms } = cc run in
    rw l (rw n (((refl, refl, refl), tt), again-Extends start))
two_files-IsAllocator start now (m ∷ n ∷ ms) left agree run = ground (arith, run)

two_files-Suffices : Suffices two_files conf_path full_context 2
unfolding two_blocks
two_files-Suffices start now pools left agree enough run = ground (arith, run)

full_context-IsSeeded : IsSeeded full_context
full_context-IsSeeded = record {
  globals = λ e. cc e;
  templates = λ e. cc e;
  vms = λ e. cc e;
  files = λ e. cc e;
}

parse-IsRetried_example :
    IsRetried two_files
      (codes "/usr/local/etc/bmd.conf")
      full_context
      (mpool_snapshot (new_block 4096 ∷ []))
      (some 300000 ∷ [])
      (parse two_files
        (codes "/usr/local/etc/bmd.conf")
        full_context
        (new_block 4096 ∷ [])
        (some 300000 ∷ []))
parse-IsRetried_example =
    parse-IsRetried two_files (codes "/usr/local/etc/bmd.conf") full_context (new_block 4096 ∷ [])
      (some 300000 ∷ []) 2 full_context-IsSeeded two_files-IsAllocator two_files-Suffices
      (omega arith, tt) (omega arith)
