-- ===== src/Lib.antt =====
-- The build scripts of dcfpe and its fork of the project generator gyp, with the theorems that make
-- them correct.
--
-- The program's parts. src/build.py takes patterns from the command line, asks which of the four
-- build targets match one of them (`match_one`, `match`), and runs ninja for each, up to the first
-- that fails. src/gen.py calls gyp to write the ninja files. The repository keeps an edited copy of
-- gyp's input stage, src/tools/pylib_dbg/input.py with __init__.py: it loads build files into nested
-- dicts and lists, merges them, makes dependency links explicit, orders the targets, passes settings
-- on along the dependencies, filters lists, merges configurations and checks the result.
--
-- The modules. Common holds what all parts share: Boolean tests on native numbers, lists, texts as
-- lists of code points, dicts as association lists, and results of code that may raise.
-- Build.Pattern models match_one and match, and Build.Pattern.Stars holds the relation that they
-- decide; Build.Targets models all_targets and main, whose run is a list of events.
-- Gyp.Value has the values of a build file and Gyp.Errors the exceptions. Gyp.Names models
-- IsPathSection (Sections), IsStrCanonicalInt (Decimal) and
-- FindEnclosingBracketGroup (Brackets);
-- Gyp.Paths MakePathRelative; Gyp.Merge MergeLists and MergeDicts; Gyp.Targets BuildTargetsDict to
-- RemoveLinkDependenciesFromNoneTargets; Gyp.Graph DependencyGraphNode, FlattenToList and
-- BuildDependencyList, Gyp.Graph.Traversal the other methods of DependencyGraphNode, and
-- Gyp.Graph.Cycles FindCycles and VerifyNoGYPFileCircularDependencies;
-- Gyp.Settings DoDependentSettings and AdjustStaticLibraryDependencies; Gyp.Configurations
-- MergeConfigWithInheritance and SetUpConfigurations; Gyp.Filters ProcessListFiltersInDict;
-- Gyp.Validate the Validate functions and VerifyNoCollidingTargets;
-- Gyp.Pruning PruneUnwantedTargets; Gyp.Includes GetIncludedBuildFiles; Gyp.Checked CheckNode,
-- with the constants as a parameter;
-- Gyp.Variables LoadAutomaticVariablesFromDict and LoadVariablesFromVariablesDict;
-- Gyp.Defaults the steps of LoadTargetBuildFile that neither read a file nor expand variables;
-- Gyp.Toolsets ProcessToolsetsInDict; Gyp.Parallel ParallelState and LoadTargetBuildFilesParallel, as
-- steps of the loop, its waits at the condition variable, and of the callbacks in any order; Gyp.Options the options of __init__.py. Scripts models the file
-- operations of src/release.py and src/install.py. Names are those of the code in lower case with
-- underscores. Samples applies the theorems to concrete inputs.
--
-- State and sharing. What the code changes in place is passed on as a value: target dicts as a dict
-- from names to dicts, graph nodes as a dict from refs to nodes, the run of a script as its events.
-- The order in which Python iterates over a dict is that of the association list, which is any; the
-- element that `set.pop` takes is the choice of a parameter.
--
-- Parameters. The functions of os.path, of gyp.common and gyp.simple_copy, Python's int of a string,
-- regular expressions, os.system, the order of paths and the environment are arguments of the definitions that use them.
--
-- Fuel. The scan of match_one runs on (length target + 1) * (length pattern + 1) steps;
-- FlattenToList takes a node off its list at every step, of which there are as many as nodes;
-- DeepDependencies and _LinkDependenciesInternal go at most as deep as there are nodes; imported
-- dependencies are inserted once each; a configuration's parents are at most as deep as there are
-- configurations; the filters go down one level of a value at a time. IsPathSection takes one
-- character off at each step. GetIncludedBuildFiles goes at most as deep as there are files, since
-- it goes into a file once. FindCycles goes at most as deep as there are nodes, since the nodes of a
-- path are different.
--
-- Not modelled: reading and evaluating build files, what the processes of the pool do, the expansion of variables, the
-- conditions, the conversion of ints (TurnIntIntoStrInDict), whose int keys the values of the model do not have, and the composition in Load; the scripts
-- gen.py and build/vs_toolchain.py, which set environment variables and copy files;
-- the option parser; what is printed, save by build.py; the copies of other projects (tools/gyp,
-- tools/clang, third_party), and the C++ programs.
pub mod Common
pub mod Build
pub mod Gyp
pub mod Scripts
mod Samples
